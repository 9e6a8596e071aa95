-- ===== src/Sequencer.antt =====
-- quiche's QuicStreamSequencer as the streams use it (net/third_party/quiche, which is not part of
-- this repository): its operations on a state `Q`, and what its documentation says of them.
use owt_sdk_quic.Prelude.{ℕ, ◌≡◌, Bool, true, false, Option, some, List, [], ◌∷◌, ◌++◌, length}

-- HasBytesToRead, GetReadableRegions with room for one region, MarkConsumed with the length of a
-- region, and IsClosed.
pub record Sequencer (Q : Type 0) : Type 0 where
  pub has_bytes_to_read : Q → Bool
  pub readable_region : Q → Option (List ℕ)
  pub mark_consumed : ℕ → Q → Q
  pub is_closed : Q → Bool

-- The bytes that can be read form one sequence. There are bytes to read exactly when it is not
-- empty; a region is a first part of it, not empty; consuming the region leaves the rest.
pub record SequencerLaws {Q : Type 0} (q : Sequencer Q) : Type 0 where
  pub readable : Q → List ℕ
  pub nothing_to_read : (s : Q) → q.has_bytes_to_read s ≡ false → readable s ≡ []
  pub region_split :
      (s : Q)
      → q.has_bytes_to_read s ≡ true
      → (b : ℕ) × (bs : List ℕ) × (q.readable_region s ≡ some (b ∷ bs))
        × (readable s ≡ b ∷ bs ++ readable (q.mark_consumed (length (b ∷ bs)) s))
