-- ===== src/Raw/Stream.antt =====
-- quic_io/src/quic_raw_stream.h and .cc: a raw stream that hands what it receives to its visitor.
pub mod Receiving
use owt_sdk_quic.Prelude.{
  ℕ, zero, suc, Bool, false, none, some, List, [], ◌∷◌, ◌++◌, if◌then◌else◌, length,
}
use owt_sdk_quic.Sequencer.{Sequencer}

-- The sequencer's state, the visitor's OnData calls, oldest first, the SetUnblocked calls and the
-- OnFinRead calls.
pub record Stream (Q : Type 0) : Type 0 where
  pub sequencer : Q
  pub has_visitor : Bool
  pub data_calls : List (List ℕ)
  pub unblocked : ℕ
  pub fin_read : ℕ

unfoldable pub new_stream : {Q : Type 0} → Q → Stream Q
new_stream s = record {
  sequencer = s;
  has_visitor = false;
  data_calls = [];
  unblocked = 0;
  fin_read = 0;
}

unfoldable pub set_visitor : {Q : Type 0} → Bool → Stream Q → Stream Q
set_visitor given s = record s { has_visitor = given }

module _ {Q : Type 0} (q : Sequencer Q) where
  -- The loop's body, for the region that it reads.
  unfoldable pub read_region : List ℕ → Stream Q → Stream Q
  read_region region s = record s {
    data_calls = if s.has_visitor then s.data_calls ++ region ∷ [] else s.data_calls;
    sequencer = q.mark_consumed (length region) s.sequencer;
  }

  -- The loop of OnDataAvailable, on fuel.
  unfoldable pub read_regions : ℕ → Stream Q → Stream Q
  read_regions zero s = s
  read_regions (suc n) s =
      if q.has_bytes_to_read s.sequencer
      then (elim (q.readable_region s.sequencer) [
        | none ↦ s
        | some region ↦ read_regions n (read_region region s)
      ])
      else s

  -- OnDataAvailable after the loop.
  unfoldable pub after_data : Stream Q → Stream Q
  after_data s =
      if q.is_closed s.sequencer
      then record s { fin_read = suc s.fin_read }
      else record s { unblocked = suc s.unblocked }

  -- OnDataAvailable
  unfoldable pub on_data_available : ℕ → Stream Q → Stream Q
  on_data_available fuel s = after_data (read_regions fuel s)
