-- ===== src/Event/Verdict.antt =====
-- What the answers to an event come to.
use ithildin.Base.{
  ℕ, ◌≡◌, refl, sym, ◌∙◌, ◌⊎◌, Bool, true, false, ◌||◌, Option, none, some, List, [], ◌∷◌, ◌++◌,
  append-nil, append_assoc, arith, if◌then◌else◌,
}
use ithildin.Event.{
  Answer, Outcome, always_ok, cond_ok, never_ok, neutral, value, null, pass, spass, fail,
  hookreturns, given,
}
use ithildin.Event.Call.{Progress, judge, receive, with_econd}

-- The answers up to the first that ends a conditional event, which is the last one then.
abbrev pub heard : List Answer → List Answer
heard [] = []
heard (always_ok ∷ rest) = always_ok ∷ []
heard (never_ok ∷ rest) = never_ok ∷ []
heard (cond_ok ∷ rest) = cond_ok ∷ heard rest
heard (neutral ∷ rest) = neutral ∷ heard rest
heard (value v ∷ rest) = value v ∷ heard rest

abbrev pub or_else : Option ℕ → Option ℕ → Option ℕ
or_else (some v) w = some v
or_else none w = w

abbrev pub value_of : Answer → Option ℕ
value_of (value v) = some v
value_of always_ok = none
value_of cond_ok = none
value_of never_ok = none
value_of neutral = none

abbrev pub last_value : List Answer → Option ℕ
last_value [] = none
last_value (a ∷ rest) = or_else (last_value rest) (value_of a)

abbrev pub is_always : Answer → Bool
is_always always_ok = true
is_always cond_ok = false
is_always never_ok = false
is_always neutral = false
is_always (value v) = false

abbrev pub is_never : Answer → Bool
is_never never_ok = true
is_never cond_ok = false
is_never always_ok = false
is_never neutral = false
is_never (value v) = false

abbrev pub any_of : (Answer → Bool) → List Answer → Bool
any_of test [] = false
any_of test (a ∷ rest) = test a || any_of test rest

-- What the answers come to, with the value `w` where they give none: `spass` where one says always,
-- else the last value, else `fail` where one says never, and else `pass`.
abbrev pub verdict : Option ℕ → List Answer → Outcome
verdict w answers =
    if any_of is_always answers
    then spass
    else elim (or_else (last_value answers) w) as (λ o. Outcome) [
      | some v ↦ given v
      | none ↦ if any_of is_never answers then fail else pass
    ]

-- The rounds of the loop over the answers.
unfoldable pub rounds : Bool → Bool → List Answer → Progress → Progress
rounds conditional hookonce [] r = r
rounds conditional hookonce (a ∷ answers) r =
    let x = receive conditional a r in
    let rest =
      rounds conditional hookonce answers
        (record (x.0) { needclean = x.0.needclean || hookonce }) in
    if x.1 then x.0 else rest

rounds_plain :
    (answers : List Answer) (r : Progress)
    → r.needclean ≡ false
    → let u = rounds false false answers r in
      (u.answers ≡ r.answers ++ answers) × (u.returned ≡ r.returned) × (u.needclean ≡ false)
unfolding rounds receive
rounds_plain [] r n = (sym (append-nil r.answers), refl, n)
rounds_plain (x ∷ answers) r n =
    let (a, b, c) =
      rounds_plain answers
        (record r { answers = r.answers ++ (x ∷ []); needclean = r.needclean || false })
        (ground arith) in
    (a ∙ append_assoc r.answers (x ∷ []) answers, b, c)

-- The loop of a conditional event with the value `w` so far.
record IsOpen (w : Option ℕ) (r : Progress) : Type 0 where
  last : r.econd ≡ w
  so_far : r.returned ≡ elim w as (λ o. Outcome) [ none ↦ pass | some v ↦ fail ]
  kept : r.needclean ≡ false

-- How the loop over the answers ends.
record Settles (w : Option ℕ) (answers : List Answer) (r u : Progress) : Type 0 where
  result : with_econd u.returned u.econd ≡ verdict w (heard answers)
  list : u.answers ≡ r.answers ++ heard answers
  kept : u.needclean ≡ false

or_else-none : (o : Option ℕ) → or_else o none ≡ o
or_else-none none = refl
or_else-none (some v) = refl

or_else_assoc : (o p q : Option ℕ) → or_else (or_else o p) q ≡ or_else o (or_else p q)
or_else_assoc none p q = refl
or_else_assoc (some v) p q = refl

-- An answer that says nothing is passed over.
verdict-cond_ok :
    (w : Option ℕ) (answers : List Answer) → verdict w answers ≡ verdict w (cond_ok ∷ answers)
verdict-cond_ok w answers = rw (or_else-none (last_value answers))

verdict-neutral :
    (w : Option ℕ) (answers : List Answer) → verdict w answers ≡ verdict w (neutral ∷ answers)
verdict-neutral w answers = rw (or_else-none (last_value answers))

verdict-value :
    (w : Option ℕ) (v : ℕ) (answers : List Answer)
    → verdict (some v) answers ≡ verdict w (value v ∷ answers)
verdict-value w v answers = rw (or_else_assoc (last_value answers) (some v) w)

rounds_conditional :
    (w : Option ℕ) (answers : List Answer) (r : Progress)
    → IsOpen w r
    → Settles w answers r (rounds true false answers r)
unfolding rounds receive judge
rounds_conditional none [] r o = record {
  result = ground (arith, o.last, o.so_far);
  list = sym (append-nil r.answers);
  kept = o.kept;
}
rounds_conditional (some v) [] r o = record {
  result = ground (arith, o.last, o.so_far);
  list = sym (append-nil r.answers);
  kept = o.kept;
}
rounds_conditional none (always_ok ∷ answers) r o = record {
  result = refl;
  list = refl;
  kept = o.kept;
}
rounds_conditional (some v) (always_ok ∷ answers) r o = record {
  result = refl;
  list = refl;
  kept = o.kept;
}
rounds_conditional none (never_ok ∷ answers) r o = record {
  result = ground (arith, o.last);
  list = refl;
  kept = o.kept;
}
rounds_conditional (some v) (never_ok ∷ answers) r o = record {
  result = ground (arith, o.last);
  list = refl;
  kept = o.kept;
}
rounds_conditional w (cond_ok ∷ answers) r o =
    let x =
      rounds_conditional w answers
        (record r { answers = r.answers ++ (cond_ok ∷ []); needclean = r.needclean || false })
        (record { last = o.last; so_far = o.so_far; kept = ground (arith, o.kept) }) in
    record {
      result = x.result ∙ verdict-cond_ok w (heard answers);
      list = x.list ∙ append_assoc r.answers (cond_ok ∷ []) (heard answers);
      kept = x.kept;
    }
rounds_conditional w (neutral ∷ answers) r o =
    let x =
      rounds_conditional w answers
        (record r { answers = r.answers ++ (neutral ∷ []); needclean = r.needclean || false })
        (record { last = o.last; so_far = o.so_far; kept = ground (arith, o.kept) }) in
    record {
      result = x.result ∙ verdict-neutral w (heard answers);
      list = x.list ∙ append_assoc r.answers (neutral ∷ []) (heard answers);
      kept = x.kept;
    }
rounds_conditional w (value v ∷ answers) r o =
    let x =
      rounds_conditional (some v) answers
        (record r {
          answers = r.answers ++ (value v ∷ []);
          returned = fail;
          econd = some v;
          needclean = r.needclean || false;
        })
        (record { last = refl; so_far = refl; kept = ground (arith, o.kept) }) in
    record {
      result = x.result ∙ verdict-value w v (heard answers);
      list = x.list ∙ append_assoc r.answers (value v ∷ []) (heard answers);
      kept = x.kept;
    }

abbrev pub start : Bool → Bool → Progress
start conditional noreturn = record {
  answers = [];
  returned = if noreturn then null else if conditional then pass else hookreturns;
  econd = none;
  needclean = false;
}

-- The list of answers and the result of a whole loop.
pub ending :
    (conditional noreturn : Bool) (answers : List Answer)
    → (conditional ≡ false) ⊎ (noreturn ≡ false)
    → let u = rounds conditional false answers (start conditional noreturn) in
      (u.needclean ≡ false)
      × (u.answers ≡ (if conditional then heard answers else answers))
      × ((if conditional then with_econd u.returned u.econd else u.returned) ≡ (
          if conditional
          then verdict none (heard answers)
          else if noreturn
          then null
          else hookreturns))
ending true true answers m = absurd (ground arith)
ending true false answers m =
    let x =
      rounds_conditional none answers (start true false)
        (record { last = refl; so_far = refl; kept = refl }) in
    (x.kept, x.list, x.result)
ending false noreturn answers m =
    let (a, b, c) = rounds_plain answers (start false noreturn) refl in (c, a, b)
