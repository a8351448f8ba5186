-- ===== src/Bitefficient/RoundTrip/Content.antt =====
-- The content is read back, as a string or as bytes with their number.
use multiagent_fipa_acl.Bitefficient.RoundTrip.Trees.{content_tree}
use multiagent_fipa_acl.Bitefficient.Format.Message.{content_body}
use multiagent_fipa_acl.Bitefficient.Reads.{lead-failed, Reads}
use multiagent_fipa_acl.Base.{
  leb, nat_beq, nat_beq_iff, Bool-cases, nat_eq, Text, text_eq, length, ok, ℕ, ◌%◌, ◌≤◌, ◌<◌, ◌≡◌,
  refl, sym, ap, ◌∙◌, subst, inl, inr, [], ◌∷◌, ◌++◌, append_assoc, arith,
}
use multiagent_fipa_acl.Message.{strlen}
use multiagent_fipa_acl.Bitefficient.Grammar.Expressions.{bin_string}
use multiagent_fipa_acl.Bitefficient.Qi.{Host, Qi, matched}
use multiagent_fipa_acl.Bitefficient.Decimal.{
  decimal_lem, print_int-decimal, print_int, is_digit, AreDigits,
}
use multiagent_fipa_acl.Bitefficient.Grammar.{byte_length_header}

strlen_le : (t : Text) → strlen t ≤ length t
strlen_le [] = omega arith
strlen_le (c ∷ t) = ground (arith, strlen_le t)

module _ (qi : Qi) where
  bytes_read : (t rest : Text) → qi.repeated (length t) qi.any_byte (t ++ rest) ≡ matched t rest
  bytes_read [] rest = qi.repeated-zero rest
  bytes_read (c ∷ t) rest =
      qi.repeated-matched (qi.any_byte-matched c (t ++ rest)) (bytes_read t rest)

  -- Bytes in front of a zero byte, none of which is zero.
  nonzero_read :
      (t rest : Text)
      → strlen t ≡ length t
      → qi.star (qi.minus qi.any_byte (qi.byte 0x00)) (t ++ 0x00 ∷ rest) ≡ matched t (0x00 ∷ rest)
  nonzero_read [] rest h = qi.star-failed (qi.minus-failed (qi.byte-matched 0x00 rest))
  nonzero_read (c ∷ t) rest h =
      qi.star-matched (omega arith)
        (qi.minus-matched (qi.byte-failed 0x00 (c ∷ t ++ 0x00 ∷ rest) (ground arith))
          ∙ qi.any_byte-matched c _)
        (nonzero_read t rest (ground (arith, strlen_le t)))

  digits_read :
      (t rest : Text)
      → AreDigits t
      → qi.star (qi.ascii is_digit) (t ++ 0x22 ∷ rest) ≡ matched t (0x22 ∷ rest)
  digits_read [] rest h = qi.star-failed (qi.ascii-failed _ 0x22 rest refl)
  digits_read (c ∷ t) rest h =
      qi.star-matched (omega arith) (qi.ascii-matched _ c _ (ground (arith, h.0)) h.0)
        (digits_read t rest h.1)

  header_read :
      (t rest : Text)
      → AreDigits t
      → 0 < length t
      → byte_length_header qi (0x23 ∷ t ++ 0x22 ∷ rest) ≡ matched t rest
  header_read [] rest h k = absurd (omega arith)
  header_read (c ∷ t) rest h k =
      qi.act-matched
        (qi.seq-matched (qi.ascii-matched _ 0x23 _ (omega arith) refl) (
          qi.seq-matched
            (qi.seq-matched (qi.ascii-matched _ c _ (ground (arith, h.0)) h.0)
              (digits_read t rest h.1))
            (qi.ascii-matched _ 0x22 rest (omega arith) refl)))
        refl

-- What the content is read as: a string comes with the digits of its length.
string_text :
    (t c rest : Text) → (t ++ (0x22 ∷ c ++ 0x00 ∷ [])) ++ rest ≡ t ++ (0x22 ∷ c ++ 0x00 ∷ rest)
string_text t c rest =
    append_assoc t (0x22 ∷ c ++ 0x00 ∷ []) rest
    ∙ ap (λ s. t ++ (0x22 ∷ s)) (append_assoc c (0x00 ∷ []) rest)

print_int-AreDigits :
    (n : ℕ) → n < 2147483648 → AreDigits (print_int n) × (0 < length (print_int n))
print_int-AreDigits n h =
    subst (λ t. AreDigits t × (0 < length t)) (sym (print_int-decimal n h))
      ((decimal_lem n).0, (decimal_lem n).1)

module _ (qi : Qi) where
  string_body :
      (c rest : Text)
      → length c < 2147483648
      → strlen c ≡ length c
      → bin_string qi ((0x14 ∷ 0x23 ∷ print_int (length c) ++ (0x22 ∷ c ++ 0x00 ∷ [])) ++ rest)
        ≡ matched (record { encoding = print_int (length c); bytes = c }) rest
  string_body c rest h k =
      subst
        (λ s.
          bin_string qi (0x14 ∷ 0x23 ∷ s)
          ≡ matched (record { encoding = print_int (length c); bytes = c }) rest)
        (sym (string_text (print_int (length c)) c rest))
        (qi.alt-matched (
          qi.alt-matched (
            qi.act-matched
              (qi.seq-matched (qi.byte-matched 0x14 _) (
                qi.alt-failed (
                  qi.act-failed
                    (qi.seq-failed (qi.act-failed (qi.seq-failed (qi.ascii-failed _ 0x23 _ refl)))))
                ∙ qi.act-matched
                    (qi.seq-matched
                      (qi.act-matched
                        (qi.seq-matched
                          (header_read qi (print_int (length c)) (c ++ 0x00 ∷ rest)
                            (print_int-AreDigits (length c) h).0
                            (print_int-AreDigits (length c) h).1)
                          (nonzero_read qi c rest k))
                        refl)
                      (qi.byte-matched 0x00 rest))
                    refl))
              refl)))

  small_body :
      (c rest : Text)
      → bin_string qi (0x16 ∷ length c ∷ c ++ rest)
        ≡ matched (record { encoding = []; bytes = c }) rest
  small_body c rest = qi.alt-matched (
      qi.alt-failed (lead-failed qi 0x14 (ground arith))
      ∙ qi.alt-matched (
          qi.act-matched
            (qi.seq-matched (qi.byte-matched 0x16 _) (
              qi.pass-matched (qi.any_byte-matched (length c) (c ++ rest))
              ∙ qi.act-matched (bytes_read qi c rest) refl))
            refl))

  word_body :
      (c rest : Text)
      → length c < 65536
      → bin_string qi ((0x17 ∷ qi.host.word_bytes (qi.host.htons (length c)) ++ c) ++ rest)
        ≡ matched (record { encoding = []; bytes = c }) rest
  word_body c rest h =
      subst
        (λ w.
          bin_string qi ((0x17 ∷ w ++ c) ++ rest)
          ≡ matched (record { encoding = []; bytes = c }) rest)
        (sym (qi.host.word_bytes-htons (length c) h))
        (qi.alt-matched (
          qi.alt-failed (lead-failed qi 0x14 (ground arith))
          ∙ qi.alt-failed (lead-failed qi 0x16 (ground arith))
          ∙ qi.alt-matched (
              qi.act-matched
                (qi.seq-matched (qi.byte-matched 0x17 _) (
                  qi.pass-matched (
                    qi.act-matched (qi.word-matched _ _ (c ++ rest))
                      (ap ok (qi.host.ntohs-word_at _ _ (omega arith) (omega arith) ∙ omega arith)))
                  ∙ qi.act-matched (bytes_read qi c rest) refl))
                refl)))

  dword_body :
      (c rest : Text)
      → length c < 4294967296
      → bin_string qi ((0x19 ∷ qi.host.dword_bytes (qi.host.htonl (length c)) ++ c) ++ rest)
        ≡ matched (record { encoding = []; bytes = c }) rest
  dword_body c rest h =
      subst
        (λ w.
          bin_string qi ((0x19 ∷ w ++ c) ++ rest)
          ≡ matched (record { encoding = []; bytes = c }) rest)
        (sym (qi.host.dword_bytes-htonl (length c) h))
        (qi.alt-matched (
          qi.alt-failed (lead-failed qi 0x14 (ground arith))
          ∙ qi.alt-failed (lead-failed qi 0x16 (ground arith))
          ∙ qi.alt-failed (lead-failed qi 0x17 (ground arith))
          ∙ qi.act-matched
              (qi.seq-matched (qi.byte-matched 0x19 _) (
                qi.pass-matched (
                  qi.act-matched (qi.dword-matched _ _ _ _ (c ++ rest)) (
                    ap ok (
                      qi.host.ntohl-dword_at _ _ _ _ (omega arith) (omega arith) (omega arith)
                        (omega arith)
                      ∙ omega arith)))
                ∙ qi.act-matched (bytes_read qi c rest) refl))
              refl))

  content_read :
      (c rest : Text)
      → length c < 2147483648
      → bin_string qi (content_body qi.host c (length c) ++ rest)
        ≡ matched (content_tree c (length c)) rest
  content_read c rest h = elim (Bool-cases (nat_beq (strlen c) (length c))) [
    | inl t ↦ rw t (string_body c rest h ((nat_beq_iff _ _).0 t))
    | inr f ↦ elim (Bool-cases (leb (length c) 255)) [
      | inl s ↦ rw (f, s) (small_body c rest)
      | inr l ↦ elim (Bool-cases (leb (length c) 65535)) [
        | inl s ↦ rw (f, l, s) (word_body c rest (ground arith))
        | inr o ↦ rw (f, l, o) (dword_body c rest (omega arith))
      ]
    ]
  ]

  body_nonempty : (host : Host) (c : Text) (d : ℕ) → 0 < length (content_body host c d)
  body_nonempty host c d = elim (Bool-cases (nat_beq (strlen c) d)) [
    | inl t ↦ rw t (omega arith)
    | inr f ↦ elim (Bool-cases (leb d 255)) [
      | inl s ↦ rw (f, s) (omega arith)
      | inr l ↦ elim (Bool-cases (leb d 65535)) [
        | inl s ↦ rw (f, l, s) (omega arith)
        | inr o ↦ rw (f, l, o) (omega arith)
      ]
    ]
  ]

  Reads-body :
      (c : Text)
      → length c < 2147483648
      → Reads (bin_string qi) (ok (content_body qi.host c (length c))) (content_tree c (length c))
  Reads-body c h = record {
    text = content_body qi.host c (length c);
    written = refl;
    read = λ rest. content_read c rest h;
    nonempty = body_nonempty qi.host c (length c);
  }

  pub Reads-content :
      (c : Text)
      → length c < 2147483648
      → Reads
          (bin_string qi)
          (ok (content_body qi.host c (length c % 4294967296)))
          (content_tree c (length c % 4294967296))
  Reads-content c h =
      subst (λ d. Reads (bin_string qi) (ok (content_body qi.host c d)) (content_tree c d))
        (omega arith) (Reads-body c h)
