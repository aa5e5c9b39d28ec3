-- ===== src/Links/Examples.antt =====
-- The link operations at a parent with three children.
use atomdoc.Prelude.{refl, inl, inr, none, List, [], ◌∷◌, arith}
use atomdoc.Links.{Ref, Links, no_links, append_links, set_slot}
use atomdoc.Links.Chain.{Distinct}
use atomdoc.Links.Slots.{Kids, Represents}
use atomdoc.Links.Append.{append_links-Represents}

abbrev no_kids : Kids
no_kids = λ _ _. []

no_links-Represents : Represents no_links no_kids
no_links-Represents = record {
  slot = λ p s. record { first = refl; last = refl; chain = tt; owned = tt; distinct = tt };
}

abbrev three : List Ref
three = 1 ∷ 2 ∷ 3 ∷ []

three-Distinct : Distinct three
three-Distinct = (
  λ m. elim m [ inl e ↦ omega arith | inr m' ↦ elim m' [ inl e ↦ omega arith | inr b ↦ b ] ],
  (λ m. elim m [ inl e ↦ omega arith | inr b ↦ b ], (λ m. m, tt)),
)

abbrev family : Links
family = append_links no_links 0 "items" none three

-- the same, for the tests that start from it
family-Represents : Represents family (set_slot no_kids 0 "items" three)
family-Represents =
    append_links-Represents no_links no_kids 0 "items" three no_links-Represents three-Distinct
      (λ q t x m n. n)
