-- ===== src/Scans/AuthErrors/Every.antt =====
-- A collection failed for its credentials where every error says so, and there is one.
use compliance_engine.Common.{
  ℕ, suc, ◌+◌, String, Bool, true, false, ◌&&◌, List, [], ◌∷◌, ◌≡◌, ◌∙◌, refl, ap, arith, ok, all,
  count, length, ◌==◌, count-le-length,
}
use compliance_engine.Json.{Json}
use compliance_engine.Scans.AuthErrors.{
  is_auth_entry, count_auth_hits, collection_errors_indicate_auth_failure,
}

-- What the test of one entry answers, for each entry of the list.
abbrev pub Answers : (Json → String) → List Json → List Bool → Type 0
Answers show [] [] = Unit
Answers show (e ∷ es) (b ∷ bs) = (is_auth_entry show e ≡ ok b) × Answers show es bs
Answers show _ _ = ⊥

abbrev same : Bool → Bool
same b = b

abbrev pub is_nonempty : List Json → Bool
is_nonempty [] = false
is_nonempty (_ ∷ _) = true

count-all : (bs : List Bool) → (count same bs == length bs) ≡ all same bs
count-all [] = refl
count-all (b ∷ bs) = ground (arith, count-all bs, count-le-length same bs)

count-all-from : (bs : List Bool) → (0 + count same bs == length bs) ≡ all same bs
count-all-from bs = ground (arith, count-all bs)

length-Answers :
    (show : Json → String) (es : List Json) (bs : List Bool)
    → Answers show es bs
    → length es ≡ length bs
length-Answers show [] [] h = refl
length-Answers show (e ∷ es) (b ∷ bs) (one, h) = ap suc (length-Answers show es bs h)
length-Answers show [] (b ∷ bs) h = absurd h
length-Answers show (e ∷ es) [] h = absurd h

count_auth_hits-count :
    (show : Json → String) (es : List Json) (bs : List Bool) (n : ℕ)
    → Answers show es bs
    → count_auth_hits show es n ≡ ok (n + count same bs)
unfolding count_auth_hits
count_auth_hits-count show [] [] n h = ap ok (omega arith)
count_auth_hits-count show (e ∷ es) (true ∷ bs) n (one, h) =
    rw one (count_auth_hits-count show es bs (n + 1) h ∙ ap ok (omega arith))
count_auth_hits-count show (e ∷ es) (false ∷ bs) n (one, h) =
    rw one (count_auth_hits-count show es bs n h ∙ ap ok (omega arith))
count_auth_hits-count show [] (b ∷ bs) n h = absurd h
count_auth_hits-count show (e ∷ es) [] n h = absurd h

-- Where the test of each error of a collection has an answer, the errors indicate an
-- authentication failure exactly if there is an error and every answer is yes.
pub collection_errors-every :
    (show : Json → String) (es : List Json) (bs : List Bool)
    → Answers show es bs
    → collection_errors_indicate_auth_failure show es ≡ ok (is_nonempty es && all same bs)
unfolding collection_errors_indicate_auth_failure
collection_errors-every show [] [] h = refl
collection_errors-every show (e ∷ es) (b ∷ bs) h =
    rw (count_auth_hits-count show (e ∷ es) (b ∷ bs) 0 h, length-Answers show (e ∷ es) (b ∷ bs) h)
      (ap ok (count-all-from (b ∷ bs)))
collection_errors-every show [] (b ∷ bs) h = absurd h
collection_errors-every show (e ∷ es) [] h = absurd h
