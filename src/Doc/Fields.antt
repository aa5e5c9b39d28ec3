-- ===== src/Doc/Fields.antt =====
-- What the write of a field records: the patches of a transaction, and their inverses.
use atomdoc.Prelude.{
  String, ◌≡◌, refl, sym, ap, ◌∙◌, inl, inr, Bool, true, false, ◌&&◌, Option, none, some, [], ◌∷◌,
  str_eq, if◌then◌else◌, str_eq_refl, Bool-cases, Option-cases, if_elim,
}
use atomdoc.Prelude.Dict.{
  Dict, lookup, insert, remove, get_or, contains, mem, lookup-insert, lookup-remove,
  contains-lookup,
}
use atomdoc.Types.{Value, value_eq, StatePatch}
use atomdoc.Links.{Ref}
use atomdoc.Doc.{Doc, state_key_to_json, id_of}
use atomdoc.Doc.Record.{
  on_set_state_inverse, on_set_state_forward, forward_patch, keep_patch, prune_inverse, patches_of,
  patch_value, write_patch, inverse_patches_of, diff_of, set_patch,
}

-- what a patch says of one field of one node
abbrev pub entry : StatePatch → String → String → Option Value
entry p i key = lookup (get_or p i []) key

get_or-lookup {ℓ} :
    {V : Type ℓ} (d : Dict V) (k : String) (v : V) (o : Option V)
    → lookup d k ≡ o
    → get_or d k v ≡ (elim o [ none ↦ v | some w ↦ w ])
unfolding get_or
get_or-lookup d k v o e = rw (e, get_or) refl

get_or-insert_self : (p : StatePatch) (i : String) (v : Dict Value) → get_or (insert p i v) i [] ≡ v
get_or-insert_self p i v =
    get_or-lookup (insert p i v) i [] (some v) (lookup-insert p i v i ∙ rw (str_eq_refl i) refl)

get_or-insert_ne :
    (p : StatePatch) (i : String) (v : Dict Value) (j : String)
    → str_eq i j ≡ false
    → get_or (insert p i v) j [] ≡ get_or p j []
get_or-insert_ne p i v j h =
    get_or-lookup (insert p i v) j [] (lookup p j) (lookup-insert p i v j ∙ rw h refl)
    ∙ sym (get_or-lookup p j [] (lookup p j) refl)

get_or-remove_self : (p : StatePatch) (i : String) → get_or (remove p i) i [] ≡ []
get_or-remove_self p i =
    get_or-lookup (remove p i) i [] none (lookup-remove p i i ∙ rw (str_eq_refl i) refl)

get_or-remove_ne :
    (p : StatePatch) (i j : String) → str_eq i j ≡ false → get_or (remove p i) j [] ≡ get_or p j []
get_or-remove_ne p i j h =
    get_or-lookup (remove p i) j [] (lookup p j) (lookup-remove p i j ∙ rw h refl)
    ∙ sym (get_or-lookup p j [] (lookup p j) refl)

entry-set_patch :
    (p : StatePatch) (i key : String) (v : Value) → entry (set_patch p i key v) i key ≡ some v
unfolding set_patch
entry-set_patch p i key v =
    rw
      (
        get_or-insert_self p i (insert (get_or p i []) key v),
        lookup-insert (get_or p i []) key v key,
        str_eq_refl key,
      )
      refl

entry-some :
    (p : StatePatch) (i key : String) (v w : Value)
    → entry p i key ≡ some v
    → entry p i key ≡ some (get_or (get_or p i []) key w)
entry-some p i key v w e =
    e ∙ ap (λ (u : Value). some u) (sym (get_or-lookup (get_or p i []) key w (some v) e))

-- The inverse keeps the value that the field had before the transaction's first write of it, for a
-- node that was there before the transaction.
pub on_set_state_inverse-entry :
    (d : Doc) (x : Ref) (key : String)
    → mem (diff_of d).inserted (id_of d x) ≡ false
    → entry (inverse_patches_of (on_set_state_inverse d x key)) (id_of d x) key
      ≡ some (get_or (get_or (inverse_patches_of d) (id_of d x) []) key (state_key_to_json d x key))
unfolding on_set_state_inverse
on_set_state_inverse-entry d x key h =
    rw h (elim (Option-cases (entry (inverse_patches_of d) (id_of d x) key)) [
      | inl e ↦
          rw (contains-lookup (get_or (inverse_patches_of d) (id_of d x) []) key, e)
            (entry-set_patch (inverse_patches_of d) (id_of d x) key (state_key_to_json d x key)
              ∙ ap (λ (u : Value). some u)
                  (sym (get_or-lookup (get_or (inverse_patches_of d) (id_of d x) []) key _ none e)))
      | inr (v, e) ↦
          rw (contains-lookup (get_or (inverse_patches_of d) (id_of d x) []) key, e)
            (entry-some (inverse_patches_of d) (id_of d x) key v (state_key_to_json d x key) e)
    ])

-- the patches behind the two branches of a write
write_patch-patches :
    (d : Doc) (i key : String) (v : Value)
    → patches_of (write_patch d i key v) ≡ set_patch (patches_of d) i key v
unfolding set_patch
write_patch-patches d i key v =
    if_elim (λ (r : Doc). patches_of r ≡ set_patch (patches_of d) i key v)
      (mem (diff_of d).inserted i) _ _ (λ _. refl) (λ _. refl)

prune_inverse-patches :
    (d : Doc) (i key : String) (o : Option (Dict Value))
    → patches_of (prune_inverse d i key o) ≡ patches_of d
prune_inverse-patches d i key none = refl
prune_inverse-patches d i key (some p) = refl

keep_patch-patches :
    (d : Doc) (i : String) (p : Dict Value) → get_or (patches_of (keep_patch d i p)) i [] ≡ p
keep_patch-patches d i [] = get_or-remove_self (patches_of d) i
keep_patch-patches d i (e ∷ es) = get_or-insert_self (patches_of d) i (e ∷ es)

abbrev is_there {ℓ} : {A : Type ℓ} → Option A → Bool
is_there none = false
is_there (some a) = true

forward_patch-entry :
    (d : Doc) (i key : String) (prev new : Value) (o : Option (Dict Value))
    → entry (patches_of (forward_patch d i key prev new o)) i key
      ≡ (if is_there o && value_eq prev new then none else some new)
forward_patch-entry d i key prev new none =
    ap (λ (p : StatePatch). entry p i key) (write_patch-patches d i key new)
    ∙ entry-set_patch (patches_of d) i key new
forward_patch-entry d i key prev new (some p) = elim (Bool-cases (value_eq prev new)) [
  | inl e ↦ rw e (
      ap (λ (q : StatePatch). entry q i key)
        (prune_inverse-patches (keep_patch d i (remove p key)) i key
          (lookup (inverse_patches_of d) i))
      ∙ ap (λ (q : Dict Value). lookup q key) (keep_patch-patches d i (remove p key))
      ∙ lookup-remove p key key
      ∙ rw (str_eq_refl key) refl)
  | inr e ↦ rw e (
      ap (λ (q : StatePatch). entry q i key) (write_patch-patches d i key new)
      ∙ entry-set_patch (patches_of d) i key new)
]

there-contains {ℓ} : {B : Type ℓ} (d : Dict B) (k : String) → is_there (lookup d k) ≡ contains d k
there-contains {B = B} d k = go (lookup d k) ∙ sym (contains-lookup d k)
  where
    go : (o : Option B) → is_there o ≡ (elim o [ none ↦ false | some _ ↦ true ])
    go none = refl
    go (some v) = refl

-- A write goes into the patch of its node, except that a node which has a patch loses the field's
-- entry where the new value is the one in the inverse patch, null if the inverse patch has none.
pub on_set_state_forward-entry :
    (d : Doc) (x : Ref) (key : String)
    → entry (patches_of (on_set_state_forward d x key)) (id_of d x) key ≡ (
        if contains (patches_of d) (id_of d x)
          && value_eq
              (patch_value (inverse_patches_of d) (id_of d x) key)
              (state_key_to_json d x key)
        then none
        else some (state_key_to_json d x key))
unfolding on_set_state_forward
on_set_state_forward-entry d x key =
    let i = id_of d x in
    rw (← there-contains (patches_of d) i) (
      forward_patch-entry d i key (patch_value (inverse_patches_of d) i key)
        (state_key_to_json d x key) (lookup (patches_of d) i))
