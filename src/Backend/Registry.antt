-- ===== src/Backend/Registry.antt =====
-- Which session the backend keeps for a connection.
use owt_sdk_quic.Prelude.{
  ◌∙◌, ap, some, Option, ◌==◌, if◌then◌else◌, refl, ℕ, suc, ◌+◌, ◌≡◌, List, [], ◌∷◌, arith, length,
}
use owt_sdk_quic.Prelude.Maps.{lookup, insert, lookup-insert}
use owt_sdk_quic.Backend.{Backend, on_session_ready, on_session_closed, cons_option}

-- The sessions made and the sessions closed, in the order in which quiche reports them.
pub data Report : Type 0 where
  ready : ℕ → ℕ → Report
  closed : ℕ → Report

unfoldable pub run : List Report → Backend → Backend
run [] b = b
run (ready connection session ∷ rs) b = run rs (on_session_ready connection session b)
run (closed id ∷ rs) b = run rs (on_session_closed id b)

abbrev pub count_ready : List Report → ℕ
count_ready [] = 0
count_ready (ready connection session ∷ rs) = suc (count_ready rs)
count_ready (closed id ∷ rs) = count_ready rs

length-insert :
    (k v : ℕ) (m : List (ℕ × ℕ)) (d : List ℕ)
    → length (insert k v m) + length (cons_option (lookup k m) d) ≡ suc (length m + length d)
unfolding insert lookup
length-insert k v [] d = omega arith
length-insert k v ((j, w) ∷ m) d = ground (arith, length-insert k v m d)

pub ready_counts :
    (connection session : ℕ) (b : Backend)
    → length (on_session_ready connection session b).sessions
        + length (on_session_ready connection session b).destroyed
      ≡ suc (length b.sessions + length b.destroyed)
unfolding on_session_ready
ready_counts connection session b = length-insert connection session b.sessions b.destroyed

-- Every session that was made is kept or was replaced by a later one of its connection: no
-- session is let go because it was closed.
pub run_accounts :
    (rs : List Report) (b : Backend)
    → length (run rs b).sessions + length (run rs b).destroyed
      ≡ length b.sessions + length b.destroyed + count_ready rs
unfolding run on_session_closed
run_accounts [] b = omega arith
run_accounts (ready connection session ∷ rs) b = omega (
  arith,
  run_accounts rs (on_session_ready connection session b),
  ready_counts connection session b,
)
run_accounts (closed id ∷ rs) b = run_accounts rs b

-- The session last made for a connection, or the one before them all.
abbrev pub latest : ℕ → List Report → Option ℕ → Option ℕ
latest connection [] before = before
latest connection (ready made session ∷ rs) before =
    latest connection rs (if made == connection then some session else before)
latest connection (closed id ∷ rs) before = latest connection rs before

pub ready_lookup :
    (made session connection : ℕ) (b : Backend)
    → lookup connection (on_session_ready made session b).sessions
      ≡ (if made == connection then some session else lookup connection b.sessions)
unfolding on_session_ready
ready_lookup made session connection b = lookup-insert made connection session b.sessions

-- For each connection the backend keeps the session that was made for it last, whatever was made for
-- other connections and whichever sessions were closed since.
pub run_keeps_latest :
    (connection : ℕ) (rs : List Report) (b : Backend)
    → lookup connection (run rs b).sessions ≡ latest connection rs (lookup connection b.sessions)
unfolding run on_session_closed
run_keeps_latest connection [] b = refl
run_keeps_latest connection (ready made session ∷ rs) b =
    run_keeps_latest connection rs (on_session_ready made session b)
    ∙ ap (latest connection rs) (ready_lookup made session connection b)
run_keeps_latest connection (closed id ∷ rs) b = run_keeps_latest connection rs b
