-- ===== src/Http3Client/Bounds.antt =====
-- DoLoop ends.
use owt_sdk_quic.Prelude.{
  ℕ, zero, suc, ◌+◌, ◌≤◌, ◌<◌, ◌≡◌, some, if◌then◌else◌, arith, inl, inr, Bool-cases, true, false,
  refl, sym, ◌∙◌, some_inj,
}
use mathlib.Core.Path.{subst}
use owt_sdk_quic.Net.{NetError}
use owt_sdk_quic.Http3Client.State.{Client, ConnectState, no_state, connect_code}
use owt_sdk_quic.Http3Client.Connect.{
  Answers, do_init, do_check_proxy, do_check_proxy_complete, do_resolve_host,
  do_resolve_host_complete, do_connect, do_connect_complete, do_send_request, do_confirm_connection,
}
use owt_sdk_quic.Http3Client.Loop.{
  do_state, do_round, goes_on, after_loop, loop_rounds, do_loop, loop_fuel,
}

-- A round that goes on has moved to a later state.
do_state-code :
    (s : ConnectState) (a : Answers) (rv : NetError) (c : Client)
    → c.next_connect_state ≡ no_state
    → goes_on (do_state s a rv c) ≡ true
    → (connect_code s < connect_code (do_state s a rv c).1.next_connect_state)
      × (connect_code (do_state s a rv c).1.next_connect_state < 10)
unfolding do_state do_init do_check_proxy do_check_proxy_complete do_resolve_host
    do_resolve_host_complete do_connect do_connect_complete do_send_request do_confirm_connection
do_state-code no_state a rv c e h = ground arith
do_state-code _ a rv c e h = ground arith

do_round-code :
    (a : Answers) (rv : NetError) (c : Client)
    → goes_on (do_round a rv c) ≡ true
    → (connect_code c.next_connect_state < connect_code (do_round a rv c).1.next_connect_state)
      × (connect_code (do_round a rv c).1.next_connect_state < 10)
unfolding do_round
do_round-code a rv c =
    do_state-code c.next_connect_state a rv (record c { next_connect_state = no_state }) refl

connect_code_bound : (s : ConnectState) → connect_code s ≤ 10
connect_code_bound s = ground arith

abbrev Enough : ℕ → Client → Type 0
Enough fuel c = 11 ≤ fuel + connect_code c.next_connect_state

loop_rounds_total :
    (fuel : ℕ) (a : Answers) (rv : NetError) (c : Client)
    → Enough fuel c
    → (c' : Client) × (loop_rounds fuel a rv c ≡ some c')
unfolding loop_rounds
loop_rounds_total zero a rv c h = absurd (omega (arith, connect_code_bound c.next_connect_state))
loop_rounds_total (suc fuel) a rv c h = elim (Bool-cases (goes_on (do_round a rv c))) [
  | inl more ↦ rw more (
      loop_rounds_total fuel a (do_round a rv c).0 (do_round a rv c).1
        (omega (arith, do_round-code a rv c more)))
  | inr done ↦ (after_loop (do_round a rv c), rw done)
]

-- The fuel does not change the result once it is enough.
loop_rounds_agree :
    (f g : ℕ) (a : Answers) (rv : NetError) (c : Client)
    → Enough f c
    → Enough g c
    → loop_rounds f a rv c ≡ loop_rounds g a rv c
unfolding loop_rounds
loop_rounds_agree zero g a rv c h k =
    absurd (omega (arith, connect_code_bound c.next_connect_state))
loop_rounds_agree (suc f) zero a rv c h k =
    absurd (omega (arith, connect_code_bound c.next_connect_state))
loop_rounds_agree (suc f) (suc g) a rv c h k = elim (Bool-cases (goes_on (do_round a rv c))) [
  | inl more ↦ rw more (
      loop_rounds_agree f g a (do_round a rv c).0 (do_round a rv c).1
        (omega (arith, do_round-code a rv c more)) (omega (arith, do_round-code a rv c more)))
  | inr done ↦ rw done
]

-- DoLoop ends, whatever the calls return and whatever state was pending: with 11 rounds or more
-- the loop comes to its end, and `do_loop` is what it ends with.
pub loop_rounds-do_loop :
    (fuel : ℕ) (a : Answers) (rv : NetError) (c : Client)
    → loop_fuel ≤ fuel
    → loop_rounds fuel a rv c ≡ some (do_loop a rv c)
unfolding do_loop
loop_rounds-do_loop fuel a rv c h =
    let (c', e) = loop_rounds_total loop_fuel a rv c (omega arith) in
    let same = loop_rounds_agree fuel loop_fuel a rv c (omega arith) (omega arith) in same ∙ rw e

loop_rounds-suc :
    (fuel : ℕ) (a : Answers) (rv : NetError) (c : Client)
    → loop_rounds (suc fuel) a rv c ≡ (
        if goes_on (do_round a rv c)
        then loop_rounds fuel a (do_round a rv c).0 (do_round a rv c).1
        else some (after_loop (do_round a rv c)))
unfolding loop_rounds
loop_rounds-suc fuel a rv c = refl

-- The loop, unrolled once.
pub do_loop_more :
    (a : Answers) (rv : NetError) (c : Client)
    → goes_on (do_round a rv c) ≡ true
    → do_loop a rv c ≡ do_loop a (do_round a rv c).0 (do_round a rv c).1
do_loop_more a rv c more = some_inj (
    sym (loop_rounds-do_loop (suc loop_fuel) a rv c (omega arith))
    ∙ loop_rounds-suc loop_fuel a rv c
    ∙ rw more (loop_rounds-do_loop loop_fuel a _ _ (omega arith)))

pub do_loop_done :
    (a : Answers) (rv : NetError) (c : Client)
    → goes_on (do_round a rv c) ≡ false
    → do_loop a rv c ≡ after_loop (do_round a rv c)
do_loop_done a rv c done = some_inj (
    sym (loop_rounds-do_loop (suc loop_fuel) a rv c (omega arith))
    ∙ loop_rounds-suc loop_fuel a rv c
    ∙ rw done)

loop_rounds_inv {ℓ} :
    (P : Client → Type ℓ) (a : Answers)
    → ((rv : NetError) (c : Client) → P c → P (do_round a rv c).1)
    → ((rv : NetError) (c : Client) → P c → P (after_loop (rv, c)))
    → (fuel : ℕ) (rv : NetError) (c d : Client) → loop_rounds fuel a rv c ≡ some d
    → P c
    → P d
unfolding loop_rounds
loop_rounds_inv P a round after zero rv c d e p = cc
loop_rounds_inv P a round after (suc fuel) rv c d e p =
    elim (Bool-cases (goes_on (do_round a rv c))) [
      | inl more ↦
          loop_rounds_inv P a round after fuel (do_round a rv c).0 (do_round a rv c).1 d
            (rw more at e) (round rv c p)
      | inr done ↦
          subst P (some_inj (rw done at e))
            (after (do_round a rv c).0 (do_round a rv c).1 (round rv c p))
    ]

-- What every round and the end of the loop keep, DoLoop keeps.
pub do_loop_inv {ℓ} :
    (P : Client → Type ℓ) (a : Answers)
    → ((rv : NetError) (c : Client) → P c → P (do_round a rv c).1)
    → ((rv : NetError) (c : Client) → P c → P (after_loop (rv, c)))
    → (rv : NetError) (c : Client) → P c
    → P (do_loop a rv c)
do_loop_inv P a round after rv c =
    loop_rounds_inv P a round after loop_fuel rv c (do_loop a rv c)
      (loop_rounds-do_loop loop_fuel a rv c (omega arith))
