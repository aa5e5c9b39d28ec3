-- ===== src/Scope.antt =====
-- python/src/atomdoc/_scope.py: what a client holds of a document. Here: the anchors of its scope, and its
-- view. The children are the kinds of nodes, the view as a whole, the placement in the client's tree, the
-- checks of its requests, and the patches that it is sent.
pub mod Anchors
pub mod Kinds
pub mod Checks
pub mod Ranges
pub mod Permission
pub mod Placed
pub mod Climb
pub mod Placement
pub mod Whole
pub mod Overlay
pub mod Update
pub mod Emission
pub mod Order
pub mod Projection
pub mod Leaving
pub mod Discretion
pub mod Arrivals
pub mod Sent
pub mod Project
pub mod Candidates
pub mod Told
pub mod Snapshot
mod Examples
use atomdoc.Prelude.{
  ℕ, zero, suc, ◌+◌, ◌-◌, ◌*◌, ◌/◌, ◌%◌, ◌≤◌, ◌<◌, String, ◌≡◌, refl, sym, ap, ◌∙◌, ◌≢◌, ◌↔◌, ◌⊎◌,
  inl, inr, Bool, true, false, ◌&&◌, ◌||◌, not, Option, none, some, List, [], ◌∷◌, ◌++◌, map,
  reverse, arith, eq_iff, ltb, leb, ◌==◌, str_eq, if◌then◌else◌, ==_iff, str_eq_refl, Bool-cases,
  Option-cases, if_elim, length, is_empty, take, drop, replicate, All, All-append,
}
use atomdoc.Prelude.Exec.{Result, ok, err, value_error}
use atomdoc.Prelude.Dict.{Dict, lookup, insert}

pub data Kind : Type 0 where
  full stub : Kind

-- node ID to depth; an anchor without a depth has no bound
abbrev pub Anchors : Type 0
Anchors = Dict (Option ℕ)

pub record ClientView : Type 0 where
  pub anchors : Anchors
  pub held : Dict Kind
  -- the held nodes that are stubs
  pub stubs : List String
  -- the held nodes that stand in the client's tree
  pub placed : List String

abbrev pub new_view : Anchors → ClientView
new_view anchors = record { anchors = anchors; held = []; stubs = []; placed = [] }

-- an anchor's `depth` in a request: none, a number that is not negative, or anything else
pub data RawDepth : Type 0 where
  no_depth unusable : RawDepth
  natural : ℕ → RawDepth

-- an entry of a request's anchors, without an ID where it is not an object with a string for one
pub record RawAnchor : Type 0 where
  pub id : Option String
  pub depth : RawDepth

-- the more generous of two depths
abbrev pub more_generous : Option ℕ → Option ℕ → Option ℕ
more_generous none d = none
more_generous (some c) none = none
more_generous (some c) (some d) = if ltb c d then some d else some c

abbrev pub merged : Option (Option ℕ) → Option ℕ → Option ℕ
merged none d = d
merged (some c) d = more_generous c d

usable : RawDepth → Option (Option ℕ)
usable RawDepth.no_depth = some none
usable RawDepth.unusable = none
usable (RawDepth.natural n) = some (some n)

-- an entry as ID and depth, if it is valid
unfoldable pub entry_of : RawAnchor → Option (String × Option ℕ)
unfolding usable
entry_of raw = elim raw.id [
  | none ↦ none
  | some i ↦ elim (usable raw.depth) [ none ↦ none | some d ↦ some (i, d) ]
]

abbrev pub add_anchor :
    Option (String × Option ℕ) → Anchors → (Anchors → Result Anchors) → Result Anchors
add_anchor none anchors rest = err value_error
add_anchor (some (i, d)) anchors rest = rest (insert anchors i (merged (lookup anchors i) d))

unfoldable pub add_anchors : Anchors → List RawAnchor → Result Anchors
unfolding entry_of
add_anchors anchors [] = ok anchors
add_anchors anchors (raw ∷ raws) = add_anchor (entry_of raw) anchors (λ b. add_anchors b raws)

-- `parse_anchors`, of a list or of something else
unfoldable pub parse_anchors : Option (List RawAnchor) → Result Anchors
unfolding add_anchors
parse_anchors none = err value_error
parse_anchors (some raws) = add_anchors [] raws
