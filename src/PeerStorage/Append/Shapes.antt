-- ===== src/PeerStorage/Append/Shapes.antt =====
-- The entries that `truncateAndAppend` of peer_storage.go keeps and appends: their indices and terms.
use native.Mathlib.Decide.{dec_lt}
use native.Mathlib.Nat.{add-zero}
use talent_challenge.Prelude.{
  ℕ, zero, suc, ◌+◌, ◌-◌, ◌^◌, ◌≤◌, ◌<◌, ◌≡◌, refl, List, [], ◌∷◌, ◌++◌, length, drop, arith,
  length-drop, le→leb, lt→leb,
}
use talent_challenge.Prelude.Outcome.{returns}
use talent_challenge.Vendor.Pebble.{Pebble}
use talent_challenge.Storage.Engines.{Engines}
use talent_challenge.Messages.{Entry, Proto}
use talent_challenge.PeerStorage.State.{PeerStorage}
use talent_challenge.PeerStorage.Log.Spec.{last_term_or, Consecutive, Holds, fresh}
use talent_challenge.PeerStorage.Log.Reads.{Consecutive-drop}
use talent_challenge.PeerStorage.Append.{last_entry, cut_compacted}

pub index-last_entry :
    (i : ℕ) (ent : Entry) (ents : List Entry)
    → Consecutive i (ent ∷ ents)
    → (last_entry ent ents).index ≡ i + length ents
index-last_entry i ent [] c = omega (arith, c.0)
index-last_entry i ent (next ∷ ents) c = omega (arith, index-last_entry (i + 1) next ents c.1)

pub last_term_or-drop :
    (t n : ℕ) (ent : Entry) (ents : List Entry)
    → n ≤ length ents
    → last_term_or t (drop n (ent ∷ ents)) ≡ (last_entry ent ents).term
last_term_or-drop t zero ent ents h = refl
last_term_or-drop t (suc n) ent [] h = absurd (omega arith)
last_term_or-drop t (suc n) ent (next ∷ ents) h = last_term_or-drop t n next ents (omega arith)

pub last_term_or-append :
    (t : ℕ) (xs ys : List Entry) → 0 < length ys → last_term_or t (xs ++ ys) ≡ last_term_or t ys
last_term_or-append t [] ys h = refl
last_term_or-append t (x ∷ xs) [] h = absurd (omega arith)
last_term_or-append t (x ∷ []) (y ∷ ys) h = refl
last_term_or-append t (x ∷ x' ∷ xs) (y ∷ ys) h = last_term_or-append t (x' ∷ xs) (y ∷ ys) h

pub Consecutive-append :
    (i : ℕ) (xs ys : List Entry)
    → Consecutive i xs
    → Consecutive (i + length xs) ys
    → Consecutive i (xs ++ ys)
Consecutive-append i [] ys hx hy = rw (← add-zero i) hy
Consecutive-append i (x ∷ xs) ys hx hy =
    let e : i + length (x ∷ xs) ≡ i + 1 + length xs = omega arith in
    (hx.0, Consecutive-append (i + 1) xs ys hx.1 (rw e at hy))

module _ {DB : Type 0} (p : Pebble DB) (pb : Proto) where
  pub Holds-append :
      (i : ℕ) (xs ys : List Entry) (engines : Engines DB)
      → Holds p pb i xs engines
      → Holds p pb (i + length xs) ys engines
      → Holds p pb i (xs ++ ys) engines
  Holds-append i [] ys engines hx hy = rw (← add-zero i) hy
  Holds-append i (x ∷ xs) ys engines hx hy =
      let e : i + length (x ∷ xs) ≡ i + 1 + length xs = omega arith in
      (hx.0, Holds-append (i + 1) xs ys engines hx.1 (rw e at hy))

  -- What the cut of the compacted entries keeps.
  pub cut_compacted-returns :
      (ent : Entry) (ents : List Entry) (ps : PeerStorage DB) (offset : ℕ)
      → ps.apply_state.truncated_state.index ≡ offset
      → offset < ent.index + length ents
      → ent.index + length ents + 1 < 2 ^ 64
      → cut_compacted p pb ent ents ps ≡ returns (fresh offset ent ents)
  unfolding cut_compacted
  cut_compacted-returns ent ents ps offset at above small = ground arith

pub fresh_shape :
    (offset : ℕ) (ent : Entry) (ents : List Entry)
    → Consecutive ent.index (ent ∷ ents)
    → offset < ent.index + length ents
    → Consecutive (offset + 1 + (ent.index - offset - 1)) (fresh offset ent ents)
      × (offset + 1 + (ent.index - offset - 1) + length (fresh offset ent ents)
          ≡ ent.index + length ents + 1)
      × ((t : ℕ) → last_term_or t (fresh offset ent ents) ≡ (last_entry ent ents).term)
fresh_shape offset ent ents c above = elim (dec_lt offset ent.index) [
  | yes new ↦
      let e : offset + 1 + (ent.index - offset - 1) ≡ ent.index = omega arith in
      rw (lt→leb ent.index offset new) (rw e (c, omega arith, λ t. refl))
  | no old ↦
      let n = offset + 1 - ent.index in
      let e : offset + 1 + (ent.index - offset - 1) ≡ ent.index + n = omega arith in
      rw (le→leb ent.index offset (omega arith)) (
        rw e (
          Consecutive-drop n ent.index (ent ∷ ents) c,
          omega (arith, length-drop n (ent ∷ ents)),
          λ t. last_term_or-drop t n ent ents (omega arith),
        ))
]
