-- ===== src/Policy/Evaluator/Compound.antt =====
-- Compound conditions as the catalog's dicts have them: any keys beside the three that are read.
use compliance_engine.Common.{
  true, false, if◌then◌else◌, ◌∙◌, String, Bool, ◌≡◌, refl, some, List, [], ◌∷◌, ◌++◌, arith, ok,
  err, Result, ◌>>=◌, all, any,
}
use compliance_engine.Json.{
  is_str, Json, str, arr, obj, Fields, end, field, PyError, find, index, items,
}
use compliance_engine.Policy.Evaluator.{
  by_type, evaluate_condition, conditions, evaluate_each, evaluate_items, combine,
}

conditions-found :
    (asset : Json) (node : Fields) (v : Json)
    → find "conditions" node ≡ some v
    → conditions asset node ≡ evaluate_each asset v
unfolding find evaluate_condition
conditions-found asset end v h = cc
conditions-found asset (field k w node) v h = ground (arith, conditions-found asset node v)

-- The dict of a compound condition over a list.
pub record IsCompound (node : Fields) (operator : String) (cs : List Json) : Type 0 where
  pub typed : find "type" node ≡ some (str "compound")
  pub operated : find "operator" node ≡ some (str operator)
  pub listed : find "conditions" node ≡ some (arr (items cs))

by_type-compound :
    (asset : Json) (node : Fields) (operator : Json) (results : Result PyError (List Bool))
    → find "type" node ≡ some (str "compound")
    → find "operator" node ≡ some operator
    → by_type asset node results ≡ (results >>= combine operator)
unfolding by_type index is_str
by_type-compound asset node operator results typed operated = ground (arith)

evaluate-compound :
    (asset : Json) (node : Fields) {operator : String} {cs : List Json}
    → IsCompound node operator cs
    → evaluate_condition asset (obj node)
      ≡ (evaluate_items asset (items cs) >>= combine (str operator))
unfolding evaluate_condition
evaluate-compound asset node {operator} {cs} h =
    by_type-compound asset node (str operator) (conditions asset node) h.typed h.operated
    ∙ rw (conditions-found asset node (arr (items cs)) h.listed)

-- Each condition of a list has a result.
abbrev pub Results : Json → List Json → List Bool → Type 0
Results asset [] [] = Unit
Results asset (c ∷ cs) (b ∷ bs) = (evaluate_condition asset c ≡ ok b) × Results asset cs bs
Results asset _ _ = ⊥

Results-evaluate_items :
    (asset : Json) (cs : List Json) (bs : List Bool)
    → Results asset cs bs
    → evaluate_items asset (items cs) ≡ ok bs
unfolding evaluate_condition
Results-evaluate_items asset [] [] h = refl
Results-evaluate_items asset (c ∷ cs) (b ∷ bs) h = rw (h.0, Results-evaluate_items asset cs bs h.1)
Results-evaluate_items asset [] (b ∷ bs) h = absurd h
Results-evaluate_items asset (c ∷ cs) [] h = absurd h

-- The first condition with an error makes the whole an error, whatever stands behind it.
first_error :
    (asset : Json) (before : List Json) (c : Json) (after : List Json) (bs : List Bool)
    (e : PyError)
    → Results asset before bs
    → evaluate_condition asset c ≡ err e
    → evaluate_items asset (items (before ++ c ∷ after)) ≡ err e
unfolding evaluate_condition
first_error asset [] c after bs e h bad = rw bad
first_error asset (d ∷ before) c after (b ∷ bs) e h bad =
    rw (h.0, first_error asset before c after bs e h.1 bad)
first_error asset (d ∷ before) c after [] e h bad = absurd h

-- A compound condition with any other keys beside raises the error of the first of its
-- conditions that raises, whatever the operator and the conditions around it: it does not stop
-- at a verdict.
pub compound-raises :
    (asset : Json) (node : Fields) (operator : String) (before : List Json) (c : Json)
    (after : List Json) (bs : List Bool) (e : PyError)
    → IsCompound node operator (before ++ c ∷ after)
    → Results asset before bs
    → evaluate_condition asset c ≡ err e
    → evaluate_condition asset (obj node) ≡ err e
compound-raises asset node operator before c after bs e h good bad =
    evaluate-compound asset node h ∙ rw (first_error asset before c after bs e good bad)

-- Where each condition of a list has a verdict, a compound condition over it with operator
-- `and` or `or`, and any other keys, gives their conjunction or disjunction.
pub compound-decides :
    (asset : Json) (node : Fields) (every : Bool) (cs : List Json) (bs : List Bool)
    → Results asset cs bs
    → IsCompound node (if every then "and" else "or") cs
    → evaluate_condition asset (obj node) ≡ ok (if every then all (λ b. b) bs else any (λ b. b) bs)
unfolding combine
compound-decides asset node true cs bs h p =
    evaluate-compound asset node p ∙ rw (Results-evaluate_items asset cs bs h)
compound-decides asset node false cs bs h p =
    evaluate-compound asset node p ∙ rw (Results-evaluate_items asset cs bs h)
