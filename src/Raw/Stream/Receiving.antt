-- ===== src/Raw/Stream/Receiving.antt =====
-- That a stream reads all that there is.
use owt_sdk_quic.Prelude.{
  ℕ, zero, suc, ◌+◌, ◌≤◌, ◌≡◌, refl, ◌∙◌, ap, true, List, [], ◌∷◌, ◌++◌, if◌then◌else◌, length,
  length-append, arith, if_elim, sym,
}
use mathlib.Core.List.{append_assoc, append-nil}
use owt_sdk_quic.Sequencer.{Sequencer, SequencerLaws}
use owt_sdk_quic.Raw.Stream.{Stream, read_region, read_regions, after_data, on_data_available}

-- Regions one after another.
abbrev pub concat : List (List ℕ) → List ℕ
concat [] = []
concat (r ∷ rs) = r ++ concat rs

concat-append : (rs : List (List ℕ)) (r : List ℕ) → concat (rs ++ r ∷ []) ≡ concat rs ++ r
concat-append [] r = append-nil r
concat-append (x ∷ rs) r = rw (concat-append rs r, append_assoc x (concat rs) r) refl

length_nil : (xs : List ℕ) → length xs ≤ 0 → xs ≡ []
length_nil [] h = refl
length_nil (x ∷ xs) h = ground (arith, h)

module _ {Q : Type 0} (q : Sequencer Q) (laws : SequencerLaws q) where
  -- The second state comes from the first by reading all that there is.
  record Reads (s s' : Stream Q) : Type 0 where
    passed_on : concat s'.data_calls ≡ concat s.data_calls ++ laws.readable s.sequencer
    nothing_left : laws.readable s'.sequencer ≡ []
    same_counts : (s'.unblocked ≡ s.unblocked) × (s'.fin_read ≡ s.fin_read)

  nothing_more : (s : Stream Q) → laws.readable s.sequencer ≡ [] → Reads s s
  nothing_more s e = record {
    passed_on = rw (e, append-nil (concat s.data_calls)) refl;
    nothing_left = e;
    same_counts = (refl, refl);
  }

  -- Reading a region first, and then the rest.
  one_region :
      (region : List ℕ) (s s' : Stream Q)
      → s.has_visitor ≡ true
      → laws.readable s.sequencer
        ≡ region ++ laws.readable (q.mark_consumed (length region) s.sequencer)
      → Reads (read_region q region s) s'
      → Reads s s'
  unfolding read_region
  one_region region s s' v e h = record {
    passed_on = calls;
    nothing_left = h.nothing_left;
    same_counts = h.same_counts;
  }
    where
      rest : List ℕ
      rest = laws.readable (q.mark_consumed (length region) s.sequencer)

      calls : concat s'.data_calls ≡ concat s.data_calls ++ laws.readable s.sequencer
      calls =
          h.passed_on
          ∙ ap (λ c. concat (if c then s.data_calls ++ region ∷ [] else s.data_calls) ++ rest) v
          ∙ ap (λ xs. xs ++ rest) (concat-append s.data_calls region)
          ∙ append_assoc (concat s.data_calls) region rest
          ∙ ap (λ xs. concat s.data_calls ++ xs) (sym e)

  shorter :
      (n b : ℕ) (bs : List ℕ) (s : Q)
      → length (laws.readable s) ≤ suc n
      → laws.readable s ≡ b ∷ bs ++ laws.readable (q.mark_consumed (length (b ∷ bs)) s)
      → length (laws.readable (q.mark_consumed (length (b ∷ bs)) s)) ≤ n
  shorter n b bs s enough e =
      ground
        (arith, enough, e, length-append bs (laws.readable (q.mark_consumed (length (b ∷ bs)) s)))

  read_regions-Reads :
      (n : ℕ) (s : Stream Q)
      → s.has_visitor ≡ true
      → length (laws.readable s.sequencer) ≤ n
      → Reads s (read_regions q n s)
  unfolding read_regions read_region
  read_regions-Reads zero s v enough =
      nothing_more s (length_nil (laws.readable s.sequencer) enough)
  read_regions-Reads (suc n) s v enough =
      if_elim (Reads s) (q.has_bytes_to_read s.sequencer)
        (λ more.
          let (b, bs, region, split) = laws.region_split s.sequencer more in
          rw region (
            one_region (b ∷ bs) s (read_regions q n (read_region q (b ∷ bs) s)) v split (
              read_regions-Reads n (read_region q (b ∷ bs) s) v
                (shorter n b bs s.sequencer enough split))))
        (λ none_left. nothing_more s (laws.nothing_to_read s.sequencer none_left))

  -- On fuel for as many rounds as there are bytes to read, or more, OnDataAvailable reads all: the
  -- visitor has then got the bytes that could be read, in order and each once, and none are left; after that either the
  -- sequencer is closed and the FIN is read, or the sequencer is unblocked.
  pub on_data_available_lem :
      (fuel : ℕ) (s : Stream Q)
      → s.has_visitor ≡ true
      → length (laws.readable s.sequencer) ≤ fuel
      → let after = on_data_available q fuel s in
        (concat after.data_calls ≡ concat s.data_calls ++ laws.readable s.sequencer)
        × (laws.readable after.sequencer ≡ [])
        × (after.fin_read ≡ s.fin_read + (if q.is_closed after.sequencer then 1 else 0))
        × (after.unblocked ≡ s.unblocked + (if q.is_closed after.sequencer then 0 else 1))
  unfolding on_data_available after_data
  on_data_available_lem fuel s v enough =
      let h = read_regions-Reads fuel s v enough in
      ground (arith, h.passed_on, h.nothing_left, h.same_counts)
