-- ===== src/Doc/Refs.antt =====
-- References: `ref_ids` of _ref.py, and the reverse index of `Doc`.
use atomdoc.Prelude.{
  String, ◌≡◌, refl, Bool, true, false, ◌&&◌, ◌||◌, not, Option, none, some, List, [], ◌∷◌, ◌++◌,
  str_eq, if◌then◌else◌,
}
use atomdoc.Prelude.Exec.{Result, ok, err, ref_integrity_error}
use atomdoc.Prelude.Dict.{Dict, lookup, insert, remove, contains, get_or, keys, mem}
use atomdoc.Types.{Value}
use atomdoc.Schema.{RefDef, FieldDef}
use atomdoc.Links.{Ref}
use atomdoc.Doc.{Doc, id_of, class_of, state_of}

-- the IDs in a stored value; a field that is unset holds none
abbrev pub ids_in : Option Value → List String
ids_in none = []
ids_in (some Value.null) = []
ids_in (some (Value.text s)) = s ∷ []
ids_in (some (Value.texts ss)) = ss
ids_in (some (Value.other _)) = []

unfoldable pub ref_ids : Doc → Ref → String → List String
ref_ids d x name = ids_in (lookup (state_of d x) name)

-- The names of the reference fields.
unfoldable pub ref_names : Dict FieldDef → List String
ref_names [] = []
ref_names ((name, f) ∷ fields) =
    let rest = ref_names fields in elim f.ref_def [ none ↦ rest | some _ ↦ name ∷ rest ]

abbrev pub Referrer : Type 0
Referrer = String × String

abbrev pub same_referrer : Referrer → Referrer → Bool
same_referrer (i, n) (j, m) = str_eq i j && str_eq n m

unfoldable pub add_referrer : List Referrer → Referrer → List Referrer
add_referrer [] r = r ∷ []
add_referrer (q ∷ rs) r = if same_referrer q r then q ∷ rs else q ∷ add_referrer rs r

unfoldable pub drop_referrer : List Referrer → Referrer → List Referrer
drop_referrer [] r = []
drop_referrer (q ∷ rs) r =
    let rest = drop_referrer rs r in if same_referrer q r then rest else q ∷ rest

unfoldable pub has_referrer : List Referrer → Referrer → Bool
has_referrer [] r = false
has_referrer (q ∷ rs) r = same_referrer q r || has_referrer rs r

abbrev pub RefIndex : Type 0
RefIndex = Dict (List Referrer)

-- `self._ref_index.setdefault(target, {})[(referrer, name)] = None`
unfoldable pub index_add : RefIndex → String → Referrer → RefIndex
unfolding add_referrer
index_add ix target r = insert ix target (add_referrer (get_or ix target []) r)

-- `_refs_discard`
unfoldable pub index_discard : RefIndex → String → Referrer → RefIndex
unfolding drop_referrer
index_discard ix target r = elim (lookup ix target) [
  | none ↦ ix
  | some entries ↦
      let left = drop_referrer entries r in
      elim left [ [] ↦ remove ix target | e ∷ es ↦ insert ix target (e ∷ es) ]
]

unfoldable pub index_add_all : RefIndex → List String → Referrer → RefIndex
index_add_all ix [] r = ix
index_add_all ix (t ∷ ts) r = index_add_all (index_add ix t r) ts r

unfoldable pub index_discard_all : RefIndex → List String → Referrer → RefIndex
index_discard_all ix [] r = ix
index_discard_all ix (t ∷ ts) r = index_discard_all (index_discard ix t r) ts r

abbrev pub set_index : Doc → RefIndex → Doc
set_index d ix = record d { ref_index = ix }

add_fields : Doc → Ref → List String → RefIndex → RefIndex
add_fields d x [] ix = ix
add_fields d x (n ∷ ns) ix = add_fields d x ns (index_add_all ix (ref_ids d x n) (id_of d x, n))

discard_fields : Doc → Ref → List String → RefIndex → RefIndex
discard_fields d x [] ix = ix
discard_fields d x (n ∷ ns) ix =
    discard_fields d x ns (index_discard_all ix (ref_ids d x n) (id_of d x, n))

-- `_refs_add`
unfoldable pub refs_add : Doc → Ref → Doc
unfolding add_fields
refs_add d x = set_index d (add_fields d x (ref_names (class_of d x).fields) d.ref_index)

-- `_refs_remove`
unfoldable pub refs_remove : Doc → Ref → Doc
unfolding discard_fields
refs_remove d x = set_index d (discard_fields d x (ref_names (class_of d x).fields) d.ref_index)

-- the IDs that stand in the first list only
unfoldable pub without_ids : List String → List String → List String
without_ids [] new = []
without_ids (t ∷ ts) new = let rest = without_ids ts new in if mem new t then rest else t ∷ rest

-- `_refs_update`
unfoldable pub refs_update : Doc → Ref → String → Option Value → Option Value → Doc
refs_update d x name old new =
    let r : Referrer = (id_of d x, name) in
    set_index d (
      index_add_all (index_discard_all d.ref_index (without_ids (ids_in old) (ids_in new)) r)
        (ids_in new) r)

refs_add_all : Doc → List (String × Ref) → Doc
refs_add_all d [] = d
refs_add_all d ((_, x) ∷ xs) = refs_add_all (refs_add d x) xs

-- `_rebuild_ref_index`
unfoldable pub rebuild_ref_index : Doc → Doc
unfolding refs_add_all
rebuild_ref_index d = refs_add_all (set_index d []) d.node_map

-- `RefDef.accepts`, for a target that is given by its type name
unfoldable pub accepts : RefDef → List String → Bool
accepts rdef bases = elim rdef.target [ none ↦ true | some t ↦ mem bases t ]

-- every target in the document, and of a type that the field accepts
unfoldable pub targets_fit : Doc → RefDef → List String → Bool
unfolding accepts
targets_fit d rdef [] = true
targets_fit d rdef (t ∷ ts) =
    let rest = targets_fit d rdef ts in
    elim (lookup d.node_map t) [ none ↦ false | some y ↦ accepts rdef (class_of d y).bases && rest ]

unfoldable pub fields_fit : Doc → Ref → Dict FieldDef → Bool
fields_fit d x [] = true
fields_fit d x ((name, f) ∷ fields) =
    let rest = fields_fit d x fields in
    elim f.ref_def [ none ↦ rest | some rdef ↦ targets_fit d rdef (ref_ids d x name) && rest ]

-- the check of the inserted and the updated nodes; a node that is gone is passed over
unfoldable pub nodes_fit : Doc → List String → Bool
nodes_fit d [] = true
nodes_fit d (i ∷ is) =
    let rest = nodes_fit d is in
    elim (lookup d.node_map i) [
      | none ↦ rest
      | some x ↦ fields_fit d x (class_of d x).fields && rest
    ]

-- Some referrer is in the document.
unfoldable pub live_referrer : Doc → List Referrer → Bool
live_referrer d [] = false
live_referrer d ((i, _) ∷ rs) = contains d.node_map i || live_referrer d rs

unfoldable pub none_referenced : Doc → List String → Bool
unfolding live_referrer
none_referenced d [] = true
none_referenced d (i ∷ is) = not (live_referrer d (get_or d.ref_index i [])) && none_referenced d is

-- `_check_ref_integrity`
unfoldable pub check_ref_integrity : Doc → Result (Unit {0})
check_ref_integrity d =
    let diff = d.tx.diff in
    if nodes_fit d (diff.inserted ++ diff.updated) && none_referenced d (keys diff.deleted)
    then ok tt
    else err ref_integrity_error

-- `_dangling_refs`, as (referrer, field, target ID)
dangling_of : Doc → String → List Referrer → List (Ref × String × String)
dangling_of d target [] = []
dangling_of d target ((i, name) ∷ rs) =
    let rest = dangling_of d target rs in
    elim (lookup d.node_map i) [ none ↦ rest | some x ↦ (x, name, target) ∷ rest ]

unfoldable pub dangling_in : Doc → RefIndex → List (Ref × String × String)
unfolding dangling_of
dangling_in d [] = []
dangling_in d ((target, entries) ∷ ix) =
    let rest = dangling_in d ix in
    if contains d.node_map target then rest else dangling_of d target entries ++ rest

-- `_check_dangling_refs`; outside strict mode it only warns
unfoldable pub check_dangling_refs : Doc → Result (Unit {0})
check_dangling_refs d = elim (dangling_in d d.ref_index) [
  | [] ↦ ok tt
  | _ ∷ _ ↦ if d.strict_mode then err ref_integrity_error else ok tt
]

refs_add_all-keeps :
    (d : Doc) (xs : List (String × Ref))
    → ((refs_add_all d xs).stage ≡ d.stage) × ((refs_add_all d xs).tx ≡ d.tx)
unfolding refs_add_all refs_add
refs_add_all-keeps d [] = (refl, refl)
refs_add_all-keeps d ((_, x) ∷ xs) = refs_add_all-keeps (refs_add d x) xs

pub rebuild_ref_index-keeps :
    (d : Doc) → ((rebuild_ref_index d).stage ≡ d.stage) × ((rebuild_ref_index d).tx ≡ d.tx)
unfolding rebuild_ref_index
rebuild_ref_index-keeps d = refs_add_all-keeps (set_index d []) d.node_map

refs_add_all-heard : (d : Doc) (xs : List (String × Ref)) → (refs_add_all d xs).heard ≡ d.heard
unfolding refs_add_all refs_add
refs_add_all-heard d [] = refl
refs_add_all-heard d ((_, x) ∷ xs) = refs_add_all-heard (refs_add d x) xs

pub rebuild_ref_index-heard : (d : Doc) → (rebuild_ref_index d).heard ≡ d.heard
unfolding rebuild_ref_index
rebuild_ref_index-heard d = refs_add_all-heard (set_index d []) d.node_map
