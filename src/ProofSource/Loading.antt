-- ===== src/ProofSource/Loading.antt =====
-- What Initialize reads, and what GetCertChain gives afterwards.
use owt_sdk_quic.Prelude.{
  ℕ, ◌≡◌, ◌≢◌, ◌⊎◌, refl, sym, ◌↔◌, Bool, true, false, Option, none, some, List, [], ◌∷◌, ◌++◌,
  arith, is_some, if◌then◌else◌, Option-cases, Bool-cases, get_elem?, zero, suc, inl, inr, ap, ◌∙◌,
  ◌||◌,
}
use mathlib.Core.List.{append_assoc, append-nil}
use owt_sdk_quic.ProofSource.{
  Certificates, ProofSource, load_certs, finish_initialize, take_store, initialize,
  some_cert_matches, get_cert_chain,
}

-- A source has a key and a chain exactly once a store was taken.
abbrev pub HasStore : {Key Certificate : Type 0} → Bool → ProofSource Key Certificate → Type 0
HasStore taken p = (is_some p.private_key ≡ taken) × (is_some p.chain ≡ taken)

-- Whether one of some results is true, or was before.
abbrev pub some_true : List Bool → Bool → Bool
some_true [] before = before
some_true (b ∷ bs) before = some_true bs (b || before)

module _ {Key X509 Certificate : Type 0} (lib : Certificates Key X509 Certificate) where
  -- The encodings of all certificates, or none where one has none.
  abbrev pub encodings : List X509 → Option (List (List ℕ))
  encodings [] = some []
  encodings (cert ∷ certs) = elim (lib.i2d_x509 cert) [
    | none ↦ none
    | some buffer ↦ elim (encodings certs) [ none ↦ none | some rest ↦ some (buffer ∷ rest) ]
  ]

  -- The certificates in some encodings.
  abbrev pub parsed : List (List ℕ) → List Certificate
  parsed [] = []
  parsed (buffer ∷ rest) = lib.create_list buffer ++ parsed rest

  load_certs-some :
      (certs : List X509) (in_file : List Certificate) (strings found : List (List ℕ))
      → encodings certs ≡ some found
      → load_certs lib certs in_file strings ≡ (some (strings ++ found), in_file ++ parsed found)
  unfolding load_certs
  load_certs-some [] in_file strings [] e = ground (arith, append-nil strings, append-nil in_file)
  load_certs-some [] in_file strings (b ∷ bs) e = cc
  load_certs-some (cert ∷ certs) in_file strings found e = elim (Option-cases (lib.i2d_x509 cert)) [
    | inl failed ↦ ground (arith, failed, e)
    | inr (buffer, encoded) ↦ elim (Option-cases (encodings certs)) [
      | inl failed ↦ ground (arith, failed, encoded, e)
      | inr (rest, later) ↦ ground (
        arith,
        encoded,
        later,
        e,
        append_assoc strings (buffer ∷ []) rest,
        append_assoc in_file (lib.create_list buffer) (parsed rest),
        load_certs-some certs (in_file ++ lib.create_list buffer) (strings ++ buffer ∷ []) rest,
      )
    ]
  ]

  load_certs-none :
      (certs : List X509) (in_file : List Certificate) (strings : List (List ℕ))
      → encodings certs ≡ none
      → (load_certs lib certs in_file strings).0 ≡ none
  unfolding load_certs
  load_certs-none [] in_file strings e = cc
  load_certs-none (cert ∷ certs) in_file strings e = elim (Option-cases (lib.i2d_x509 cert)) [
    | inl failed ↦ ground (arith, failed)
    | inr (buffer, encoded) ↦ elim (Option-cases (encodings certs)) [
      | inl later ↦ ground (
        arith,
        encoded,
        load_certs-none certs (in_file ++ lib.create_list buffer) (strings ++ buffer ∷ []) later,
      )
      | inr (rest, later) ↦ ground (arith, later, encoded, e)
    ]
  ]

  -- The source after a key store was taken.
  abbrev pub with_store :
      Key → List (List ℕ) → ProofSource Key Certificate → ProofSource Key Certificate
  with_store key found p = record {
    private_key = some key;
    certs_in_file = p.certs_in_file ++ parsed found;
    chain = some found;
  }

  -- A key store that Initialize takes, and what it then has: the file can be read, it opens with the
  -- password, all its certificates have encodings, and with the certificates in them the source has a
  -- certificate.
  pub record Taken (file : Option (List ℕ)) (password : List ℕ) (p p' : ProofSource Key Certificate)
      : Type 0 where
    pub pfx : List ℕ
    pub key : Key
    pub certs : List X509
    pub found : List (List ℕ)
    pub readable : file ≡ some pfx
    pub opens : lib.get_key_and_certs pfx password ≡ some (key, certs)
    pub encode : encodings certs ≡ some found
    pub has_certificate : p.certs_in_file ++ parsed found ≢ []
    pub holds : p' ≡ with_store key found p

  -- Nothing was taken: the key and the chain are as they were.
  abbrev pub Kept : ProofSource Key Certificate → ProofSource Key Certificate → Type 0
  Kept p p' = (p'.private_key ≡ p.private_key) × (p'.chain ≡ p.chain)

  finish-Taken :
      (pfx password : List ℕ) (key : Key) (certs : List X509) (found : List (List ℕ))
      (p : ProofSource Key Certificate) (in_file : List Certificate)
      → lib.get_key_and_certs pfx password ≡ some (key, certs)
      → encodings certs ≡ some found
      → in_file ≡ p.certs_in_file ++ parsed found
      → let (ok, p') = finish_initialize lib key (some found) in_file p in
        ((ok ≡ true) × Taken (some pfx) password p p') ⊎ ((ok ≡ false) × Kept p p')
  unfolding finish_initialize
  finish-Taken pfx password key certs found p [] o e same = inr (refl, (refl, refl))
  finish-Taken pfx password key certs found p (c ∷ cs) o e same = inl (
    refl,
    record {
      pfx = pfx;
      key = key;
      certs = certs;
      found = found;
      readable = refl;
      opens = o;
      encode = e;
      has_certificate = λ none_left. cc;
      holds = ground (arith, same);
    },
  )

  finish-none :
      (key : Key) (strings : Option (List (List ℕ))) (in_file : List Certificate)
      (p : ProofSource Key Certificate)
      → strings ≡ none
      → let (ok, p') = finish_initialize lib key strings in_file p in (ok ≡ false) × Kept p p'
  unfolding finish_initialize
  finish-none key none in_file p e = (refl, (refl, refl))
  finish-none key (some found) in_file p e = absurd (cc)

  finish-true :
      (key : Key) (found : List (List ℕ)) (in_file : List Certificate)
      (p : ProofSource Key Certificate)
      → in_file ≢ []
      → (finish_initialize lib key (some found) in_file p).0 ≡ true
  unfolding finish_initialize
  finish-true key found [] p filled = absurd (filled refl)
  finish-true key found (c ∷ cs) p filled = refl

  take_store-cases :
      (pfx password : List ℕ) (opened : Option (Key × List X509)) (p : ProofSource Key Certificate)
      → lib.get_key_and_certs pfx password ≡ opened
      → let (ok, p') = take_store lib opened p in
        ((ok ≡ true) × Taken (some pfx) password p p') ⊎ ((ok ≡ false) × Kept p p')
  unfolding take_store
  take_store-cases pfx password none p o = inr (refl, (refl, refl))
  take_store-cases pfx password (some (key, certs)) p o = elim (Option-cases (encodings certs)) [
    | inl failed ↦ inr (finish-none key _ _ p (load_certs-none certs p.certs_in_file [] failed))
    | inr (found, encoded) ↦
        rw (load_certs-some certs p.certs_in_file [] found encoded)
          (finish-Taken pfx password key certs found p _ o encoded refl)
  ]

  initialize-cases :
      (file : Option (List ℕ)) (password : List ℕ) (p : ProofSource Key Certificate)
      → let (ok, p') = initialize lib file password p in
        ((ok ≡ true) × Taken file password p p') ⊎ ((ok ≡ false) × Kept p p')
  unfolding initialize
  initialize-cases none password p = inr (refl, (refl, refl))
  initialize-cases (some pfx) password p = take_store-cases pfx password _ p refl

  Taken-true :
      (file : Option (List ℕ)) (password : List ℕ) (p p' : ProofSource Key Certificate)
      → Taken file password p p'
      → (initialize lib file password p).0 ≡ true
  unfolding initialize take_store
  Taken-true file password p p' t =
      rw (t.readable, initialize)
        (rw (t.opens, take_store)
          (rw (load_certs-some t.certs p.certs_in_file [] t.found t.encode)
            (finish-true t.key t.found _ p t.has_certificate)))

  -- Initialize returns true exactly when the file can be read, opens with the password, all its
  -- certificates have encodings, and there is a certificate in them or in the source from before; then
  -- the source has the store's key, the encodings as its chain, in order, and the new certificates
  -- behind the old ones. In all other cases it keeps its key and its chain.
  pub initialize_lem :
      (file : Option (List ℕ)) (password : List ℕ) (p : ProofSource Key Certificate)
      → let (ok, p') = initialize lib file password p in
        ((ok ≡ true) ↔ Taken file password p p') × Kept p (if ok then p else p')
  initialize_lem file password p = elim (initialize-cases file password p) [
    | inl (fine, t) ↦ rw fine ((λ _. t, λ t'. refl), (refl, refl))
    | inr (failed, k) ↦
        rw failed ((λ e. absurd (cc), λ t. sym failed ∙ Taken-true file password p _ t), k)
  ]

  -- Calls of Initialize, one after the other, and what each returned.
  unfoldable pub initialize_all :
      List (Option (List ℕ) × List ℕ)
      → ProofSource Key Certificate
      → List Bool × ProofSource Key Certificate
  initialize_all [] p = ([], p)
  initialize_all ((file, password) ∷ rest) p =
      let (ok, p') = initialize lib file password p in
      let (oks, p'') = initialize_all rest p' in (ok ∷ oks, p'')

  initialize-HasStore :
      (file : Option (List ℕ)) (password : List ℕ) (taken : Bool) (p : ProofSource Key Certificate)
      → HasStore taken p
      → let (ok, p') = initialize lib file password p in HasStore (ok || taken) p'
  initialize-HasStore file password taken p (key, chain) = elim (initialize-cases file password p) [
    | inl (fine, t) ↦ rw (fine, t.holds) (refl, refl)
    | inr (failed, (same_key, same_chain)) ↦
        rw failed (ap is_some same_key ∙ key, ap is_some same_chain ∙ chain)
  ]

  pub initialize_all-HasStore :
      (stores : List (Option (List ℕ) × List ℕ)) (taken : Bool) (p : ProofSource Key Certificate)
      → HasStore taken p
      → let (oks, p') = initialize_all stores p in HasStore (some_true oks taken) p'
  unfolding initialize_all
  initialize_all-HasStore [] taken p h = h
  initialize_all-HasStore ((file, password) ∷ rest) taken p h =
      initialize_all-HasStore rest _ _ (initialize-HasStore file password taken p h)

  some_cert_matches-found :
      (hostname : List ℕ) (certs : List Certificate)
      → some_cert_matches lib hostname certs ≡ true
      → (place : ℕ) × (cert : Certificate) × (get_elem? certs place ≡ some cert)
        × (lib.verify_name_match cert hostname ≡ true)
  unfolding some_cert_matches
  some_cert_matches-found hostname [] e = absurd (cc)
  some_cert_matches-found hostname (cert ∷ certs) e =
      elim (Bool-cases (lib.verify_name_match cert hostname)) [
        | inl here ↦ (0, cert, refl, here)
        | inr not_here ↦
            let (place, found, at_place, matches) =
              some_cert_matches-found hostname certs (ground (arith, e, not_here)) in
            (suc place, found, at_place, matches)
      ]

  some_cert_matches-at :
      (hostname : List ℕ) (certs : List Certificate) (place : ℕ) (cert : Certificate)
      → get_elem? certs place ≡ some cert
      → lib.verify_name_match cert hostname ≡ true
      → some_cert_matches lib hostname certs ≡ true
  unfolding some_cert_matches
  some_cert_matches-at hostname [] place cert e matches = absurd (cc)
  some_cert_matches-at hostname (c ∷ cs) zero cert e matches = ground (arith, e, matches)
  some_cert_matches-at hostname (c ∷ cs) (suc place) cert e matches =
      ground (arith, some_cert_matches-at hostname cs place cert e matches)

  -- GetCertChain gives the source's chain for every host, and reports a match exactly when a host is
  -- named and one of the certificates that were read matches its name.
  pub get_cert_chain_lem :
      (hostname : List ℕ) (p : ProofSource Key Certificate)
      → let (chain, matched) = get_cert_chain lib hostname p in
        (chain ≡ p.chain)
        × ((matched ≡ true) ↔ (
            (hostname ≢ [])
            × ((place : ℕ) × (cert : Certificate) × (get_elem? p.certs_in_file place ≡ some cert)
                × (lib.verify_name_match cert hostname ≡ true))))
  unfolding get_cert_chain
  get_cert_chain_lem [] p = (refl, (λ e. absurd (cc), λ t. absurd (t.0 refl)))
  get_cert_chain_lem (c ∷ cs) p = (
    refl,
    (
      λ e. ((λ empty. cc), some_cert_matches-found (c ∷ cs) p.certs_in_file e),
      λ t.
          let (named, (place, cert, at_place, matches)) = t in
          some_cert_matches-at (c ∷ cs) p.certs_in_file place cert at_place matches,
    ),
  )
