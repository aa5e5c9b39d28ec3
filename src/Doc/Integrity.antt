-- ===== src/Doc/Integrity.antt =====
-- What the check of references at a commit guarantees.
use atomdoc.Prelude.{
  String, ◌≡◌, refl, Bool, true, false, ◌&&◌, ◌||◌, not, List, [], ◌∷◌, ◌++◌, if◌then◌else◌, All,
}
use atomdoc.Prelude.Exec.{Result, ok, err, ref_integrity_error}
use atomdoc.Prelude.Dict.{contains, get_or, keys}
use atomdoc.Doc.{Doc}
use atomdoc.Doc.Refs.{Referrer, live_referrer, none_referenced, nodes_fit, check_ref_integrity}

and-true : (a b : Bool) → (a && b) ≡ true → (a ≡ true) × (b ≡ true)
and-true true b h = (refl, h)
and-true false b h = cc

not-true : (a : Bool) → not a ≡ true → a ≡ false
not-true true h = cc
not-true false h = refl

or-false : (a b : Bool) → (a || b) ≡ false → (a ≡ false) × (b ≡ false)
or-false true b h = cc
or-false false b h = (refl, h)

abbrev pub IsGone : Doc → Referrer → Type 0
IsGone d r = contains d.node_map r.0 ≡ false

live_referrer-IsGone :
    (d : Doc) (rs : List Referrer) → live_referrer d rs ≡ false → All (IsGone d) rs
unfolding live_referrer
live_referrer-IsGone d [] h = tt
live_referrer-IsGone d ((i, n) ∷ rs) h =
    let p = or-false (contains d.node_map i) (live_referrer d rs) h in
    (p.0, live_referrer-IsGone d rs p.1)

none_referenced-IsGone :
    (d : Doc) (is : List String)
    → none_referenced d is ≡ true
    → All (λ (i : String). All (IsGone d) (get_or d.ref_index i [])) is
unfolding none_referenced
none_referenced-IsGone d [] h = tt
none_referenced-IsGone d (i ∷ is) h =
    let p = and-true (not (live_referrer d (get_or d.ref_index i []))) (none_referenced d is) h in
    (
      live_referrer-IsGone d (get_or d.ref_index i []) (not-true _ p.0),
      none_referenced-IsGone d is p.1,
    )

passed :
    (b : Bool)
    → ◌≡◌ {A = Result (Unit {0})} (if b then ok tt else err ref_integrity_error) (ok tt)
    → b ≡ true
passed true e = refl
passed false e = cc

-- Where the check passes, no node that the transaction deleted is referenced, by the index, from a
-- node that is in the document.
pub check_ref_integrity-IsGone :
    (d : Doc)
    → check_ref_integrity d ≡ ok tt
    → All (λ (i : String). All (IsGone d) (get_or d.ref_index i [])) (keys d.tx.diff.deleted)
unfolding check_ref_integrity
check_ref_integrity-IsGone d h =
    none_referenced-IsGone d (keys d.tx.diff.deleted)
      (and-true (nodes_fit d (d.tx.diff.inserted ++ d.tx.diff.updated)) _ (passed _ h)).1
