-- ===== src/Bitefficient/RoundTrip/Dates.antt =====
-- A date is read back: two digits in a byte, of a text that has the form which `base::Time` prints.
use multiagent_fipa_acl.Base.{
  nat_eq, Text, text_eq, ◌>>=◌, ok, ℕ, ◌≡◌, refl, ap, ◌∙◌, [], ◌∷◌, arith,
}
use multiagent_fipa_acl.Bitefficient.Qi.{Qi}
use multiagent_fipa_acl.Bitefficient.Reads.{Reads, ◌+++◌}
use multiagent_fipa_acl.Bitefficient.Format.{
  Printing, bin_date_text, erase_all, insert_at, bin_date, bin_date_time_token,
}
use multiagent_fipa_acl.Bitefficient.Grammar.Expressions.{bin_date_time}
use multiagent_fipa_acl.Bitefficient.RoundTrip.Digits.{
  TimeDigits, AreTimeDigits, pair_text, printed, date_of_digits, keep_pair, drop_mark, keep_one,
  not_mark, zero_first, nothing_erased, packed, pack_pair, nothing_packed, coded_read, year_read,
}

-- The bytes of a date.
abbrev date_bytes : TimeDigits → Text
date_bytes d =
    packed d.century
    ∷ packed d.decade
    ∷ packed d.month
    ∷ packed d.day
    ∷ packed d.hour
    ∷ packed d.minute
    ∷ packed d.second
    ∷ packed (48, d.millis_first)
    ∷ packed d.millis_last
    ∷ []

-- The marks are erased.
without_colons : TimeDigits → Text
without_colons d = pair_text d.century (
    pair_text d.decade (
      pair_text d.month (
        pair_text d.day (
          45
          ∷ pair_text d.hour (
              pair_text d.minute
                (pair_text d.second (d.millis_first ∷ pair_text d.millis_last [])))))))

without_marks : TimeDigits → Text
without_marks d = pair_text d.century (
    pair_text d.decade (
      pair_text d.month (
        pair_text d.day (
          pair_text d.hour (
            pair_text d.minute
              (pair_text d.second (d.millis_first ∷ pair_text d.millis_last [])))))))

colons_erased : (d : TimeDigits) → AreTimeDigits d → erase_all 58 (printed d) ≡ without_colons d
unfolding printed without_colons
colons_erased d h = keep_pair 58 d.century _ _ refl h.0 (
    keep_pair 58 d.decade _ _ refl h.1 (
      keep_pair 58 d.month _ _ refl h.2 (
        keep_pair 58 d.day _ _ refl h.3 (
          keep_one 58 45 _ _ refl (
            keep_pair 58 d.hour _ _ refl h.4 (
              drop_mark 58 _ _ (
                keep_pair 58 d.minute _ _ refl h.5 (
                  drop_mark 58 _ _ (
                    keep_pair 58 d.second _ _ refl h.6 (
                      drop_mark 58 _ _ (
                        keep_one 58 d.millis_first _ _ (not_mark 58 d.millis_first refl h.7)
                          (keep_pair 58 d.millis_last _ _ refl h.8 (nothing_erased 58)))))))))))))

marks_erased :
    (d : TimeDigits) → AreTimeDigits d → erase_all 45 (without_colons d) ≡ without_marks d
unfolding without_marks without_colons
marks_erased d h = keep_pair 45 d.century _ _ refl h.0 (
    keep_pair 45 d.decade _ _ refl h.1 (
      keep_pair 45 d.month _ _ refl h.2 (
        keep_pair 45 d.day _ _ refl h.3 (
          drop_mark 45 _ _ (
            keep_pair 45 d.hour _ _ refl h.4 (
              keep_pair 45 d.minute _ _ refl h.5 (
                keep_pair 45 d.second _ _ refl h.6 (
                  keep_one 45 d.millis_first _ _ (not_mark 45 d.millis_first refl h.7)
                    (keep_pair 45 d.millis_last _ _ refl h.8 (nothing_erased 45))))))))))

abbrev with_zero : TimeDigits → Text
with_zero d = pair_text d.century (
    pair_text d.decade (
      pair_text d.month (
        pair_text d.day (
          pair_text d.hour (
            pair_text d.minute (
              pair_text d.second (pair_text (48, d.millis_first) (pair_text d.millis_last []))))))))

zero_inserted : (d : TimeDigits) → insert_at 14 48 (without_marks d) ≡ ok (with_zero d)
unfolding insert_at without_marks
zero_inserted d = refl

packed_text : (d : TimeDigits) → AreTimeDigits d → bin_date_text (with_zero d) ≡ ok (date_bytes d)
packed_text d h = pack_pair d.century _ _ h.0 (
    pack_pair d.decade _ _ h.1 (
      pack_pair d.month _ _ h.2 (
        pack_pair d.day _ _ h.3 (
          pack_pair d.hour _ _ h.4 (
            pack_pair d.minute _ _ h.5 (
              pack_pair d.second _ _ h.6 (
                pack_pair (48, d.millis_first) _ _ (zero_first d.millis_first h.7)
                  (pack_pair d.millis_last _ _ h.8 nothing_packed))))))))

bin_date_bytes :
    (env : Printing) (time : ℕ) (d : TimeDigits)
    → AreTimeDigits d
    → env.time_text time ≡ printed d
    → bin_date env time ≡ ok (date_bytes d)
unfolding bin_date
bin_date_bytes env time d h e =
    ap (λ t. insert_at 14 48 (erase_all 45 (erase_all 58 t)) >>= λ text. bin_date_text text) e
    ∙ ap (λ t. insert_at 14 48 (erase_all 45 t) >>= λ text. bin_date_text text) (colons_erased d h)
    ∙ ap (λ t. insert_at 14 48 t >>= λ text. bin_date_text text) (marks_erased d h)
    ∙ ap (λ r. r >>= λ text. bin_date_text text) (zero_inserted d)
    ∙ packed_text d h

-- A time whose text has the form that base::Time prints, with these digits, is encoded with two
-- digits in a byte and read back as the date with these digits, whatever follows.
pub Reads-date :
    (qi : Qi) (env : Printing) (time : ℕ) (d : TimeDigits)
    → AreTimeDigits d
    → env.time_text time ≡ printed d
    → Reads (bin_date_time qi) (bin_date_time_token env time) (date_of_digits d)
unfolding date_of_digits
Reads-date qi env time d h e = record {
  text = 0x20 ∷ date_bytes d;
  written = ap (ok (0x20 ∷ []) +++◌) (bin_date_bytes env time d h e);
  read = λ rest. qi.alt-matched (
      qi.act-matched
        (qi.seq-matched (qi.byte-matched 0x20 _) (
          qi.act-matched
            (qi.act-matched
              (qi.seq-matched (year_read qi d.century d.decade _ h.0 h.1) (
                qi.seq-matched (coded_read qi d.month _ h.2) (
                  qi.seq-matched (coded_read qi d.day _ h.3) (
                    qi.seq-matched (coded_read qi d.hour _ h.4) (
                      qi.seq-matched (coded_read qi d.minute _ h.5) (
                        qi.seq-matched (coded_read qi d.second _ h.6) (
                          year_read qi (48, d.millis_first) d.millis_last rest
                            (zero_first d.millis_first h.7) h.8)))))))
              refl)
            refl))
        refl);
  nonempty = omega arith;
}
