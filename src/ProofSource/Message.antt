-- ===== src/ProofSource/Message.antt =====
-- The message that GetProof signs, and what it determines.
use mathlib.Core.List.{append_assoc}
use owt_sdk_quic.Prelude.{ℕ, ◌^◌, ◌<◌, ◌≡◌, List, [], ◌∷◌, ◌++◌, length, arith, refl, sym, ◌∙◌}
use owt_sdk_quic.ProofSource.{uint32_bytes}

-- What a proof is made for: the hash of the client's hello and the server's configuration, behind the
-- label and the hash's length.
abbrev pub proof_message : List ℕ → List ℕ → List ℕ → List ℕ
proof_message label chlo_hash server_config =
    label ++ uint32_bytes (length chlo_hash) ++ chlo_hash ++ server_config

head_eq : {x y : ℕ} {xs ys : List ℕ} → x ∷ xs ≡ y ∷ ys → x ≡ y
head_eq e = cc

tail_eq : {x y : ℕ} {xs ys : List ℕ} → x ∷ xs ≡ y ∷ ys → xs ≡ ys
tail_eq e = cc

append_left_cancel : (front xs ys : List ℕ) → front ++ xs ≡ front ++ ys → xs ≡ ys
append_left_cancel [] xs ys e = e
append_left_cancel (x ∷ front) xs ys e = append_left_cancel front xs ys (tail_eq e)

split_equal :
    (xs ys front back : List ℕ)
    → length xs ≡ length ys
    → xs ++ front ≡ ys ++ back
    → (xs ≡ ys) × (front ≡ back)
split_equal [] [] front back n e = (refl, e)
split_equal [] (y ∷ ys) front back n e = absurd (omega arith)
split_equal (x ∷ xs) [] front back n e = absurd (omega arith)
split_equal (x ∷ xs) (y ∷ ys) front back n e =
    let (same, rest) = split_equal xs ys front back (omega arith) (tail_eq e) in
    (ground (arith, same, head_eq e), rest)

uint32_bytes-inj : (m n : ℕ) → m < 2 ^ 32 → n < 2 ^ 32 → uint32_bytes m ≡ uint32_bytes n → m ≡ n
unfolding uint32_bytes
uint32_bytes-inj m n small_m small_n e = omega (
  arith,
  head_eq e,
  head_eq (tail_eq e),
  head_eq (tail_eq (tail_eq e)),
  head_eq (tail_eq (tail_eq (tail_eq e))),
)

length-uint32_bytes : (n : ℕ) → length (uint32_bytes n) ≡ 4
unfolding uint32_bytes
length-uint32_bytes n = refl

regroup :
    (label hash config : List ℕ)
    → proof_message label hash config ≡ label ++ (uint32_bytes (length hash) ++ (hash ++ config))
regroup label hash config =
    append_assoc (label ++ uint32_bytes (length hash)) hash config
    ∙ append_assoc label (uint32_bytes (length hash)) (hash ++ config)

-- The message determines what it is made for: where two hashes are shorter than 2 ^ 32 bytes and the
-- messages under one label are equal, the hashes are equal, and so are the configurations.
pub proof_message-inj :
    (label hash hash' config config' : List ℕ)
    → length hash < 2 ^ 32
    → length hash' < 2 ^ 32
    → proof_message label hash config ≡ proof_message label hash' config'
    → (hash ≡ hash') × (config ≡ config')
proof_message-inj label hash hash' config config' short short' e =
    let after_label =
      append_left_cancel label _ _
        (sym (regroup label hash config) ∙ e ∙ regroup label hash' config') in
    let (sizes, rest) =
      split_equal (uint32_bytes (length hash)) (uint32_bytes (length hash')) _ _
        (length-uint32_bytes (length hash) ∙ sym (length-uint32_bytes (length hash')))
        after_label in
    split_equal hash hash' config config'
      (uint32_bytes-inj (length hash) (length hash') short short' sizes) rest
