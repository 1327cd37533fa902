-- ===== src/Bluez/GattDb/Values/Once.antt =====
-- Every request of an attribute is answered once.
use minipro.Base.{
  ℕ, zero, suc, ◌+◌, ◌%◌, ◌^◌, ◌≡◌, refl, sym, subst, Bool, Option, none, some, List, [], ◌∷◌, ◌++◌,
  arith, ◌==◌, if◌then◌else◌, Bool-cases, Option-cases, inl, inr,
}
use minipro.Bluez.GattDb.Values.{
  Ending, answered, timed_out, Request, Pending, start, take_request, finish, drop_request, expire,
  cancel_all, attribute_destroy,
}

-- what can happen to an attribute
pub data Event (C : Type 0) : Type 0 where
  starts : C → Event C
  finishes : (id err : ℕ) → Event C
  expires : ℕ → Event C

unfoldable pub step : {C : Type 0} → Event C → Pending C → Pending C
step (starts func) p = start func p
step (finishes id err) p = (finish id err p).1
step (expires place') p = expire place' p

unfoldable pub run : {C : Type 0} → List (Event C) → Pending C → Pending C
run [] p = p
run (e ∷ es) p = run es (step e p)

module _ {C : Type 0} (mine : C → Bool) where
  -- how often a callback occurs among requests, calls and events
  abbrev pub one : C → ℕ
  one c = if mine c then 1 else 0

  abbrev pub requested : List (Request C) → ℕ
  requested [] = 0
  requested (r ∷ rs) = one r.func + requested rs

  abbrev pub called : List (C × Ending) → ℕ
  called [] = 0
  called (c ∷ cs) = one c.0 + called cs

  abbrev pub started : List (Event C) → ℕ
  started [] = 0
  started (starts func ∷ es) = one func + started es
  started (finishes id err ∷ es) = started es
  started (expires place' ∷ es) = started es

  requested-append : (xs ys : List (Request C)) → requested (xs ++ ys) ≡ requested xs + requested ys
  requested-append [] ys = omega arith
  requested-append (x ∷ xs) ys = omega (arith, requested-append xs ys)

  called-append : (xs ys : List (C × Ending)) → called (xs ++ ys) ≡ called xs + called ys
  called-append [] ys = omega arith
  called-append (x ∷ xs) ys = omega (arith, called-append xs ys)

  called-cancel_all : (rs : List (Request C)) → called (cancel_all rs) ≡ requested rs
  unfolding cancel_all
  called-cancel_all [] = refl
  called-cancel_all (r ∷ rs) = omega (arith, called-cancel_all rs)

  -- a request that was taken out counted in the list it came from
  abbrev Balance : List (Request C) → Option (C × List (Request C)) → Type 0
  Balance rs none = Unit {0}
  Balance rs (some (func, rest)) = requested rs ≡ one func + requested rest

  Balance-cons :
      (r : Request C) (rs : List (Request C)) (o : Option (C × List (Request C)))
      → Balance rs o
      → Balance (r ∷ rs) (elim o [ none ↦ none | some (func, rest) ↦ some (func, r ∷ rest) ])
  Balance-cons r rs none even = tt
  Balance-cons r rs (some (func, rest)) even = omega arith

  take_request-Balance : (id : ℕ) (rs : List (Request C)) → Balance rs (take_request id rs)
  unfolding take_request
  take_request-Balance id [] = tt
  take_request-Balance id (r ∷ rs) =
      let later = Balance-cons r rs (take_request id rs) (take_request-Balance id rs) in
      elim (Bool-cases (r.id == id)) [ inl hit ↦ rw hit refl | inr miss ↦ rw miss later ]

  drop_request-Balance : (place' : ℕ) (rs : List (Request C)) → Balance rs (drop_request place' rs)
  unfolding drop_request
  drop_request-Balance place' [] = tt
  drop_request-Balance zero (r ∷ rs) = refl
  drop_request-Balance (suc place') (r ∷ rs) =
      Balance-cons r rs (drop_request place' rs) (drop_request-Balance place' rs)

  -- a call for a request that was taken out
  call_lem :
      (p : Pending C) (func : C) (rest : List (Request C)) (ending : Ending)
      → Balance p.requests (some (func, rest))
      → called (p.calls ++ ((func, ending) ∷ [])) + requested rest
        ≡ called p.calls + requested p.requests + 0
  call_lem p func rest ending even = omega (arith, called-append p.calls ((func, ending) ∷ []))

  finish_lem :
      (id err : ℕ) (p : Pending C)
      → called (finish id err p).1.calls + requested (finish id err p).1.requests
        ≡ called p.calls + requested p.requests + 0
  unfolding finish
  finish_lem id err p =
      let even = take_request-Balance id p.requests in
      elim (Bool-cases (id == 0)) [
        | inl none' ↦ rw none' (omega arith)
        | inr some' ↦ elim (Option-cases (take_request id p.requests)) [
          | inl e ↦ rw (some', e) (omega arith)
          | inr ((func, rest), e) ↦
              rw (some', e) (call_lem p func rest (answered err) (rw e at even))
        ]
      ]

  abbrev Keeps : Pending C → Pending C → Type 0
  Keeps p q = called q.calls + requested q.requests ≡ called p.calls + requested p.requests + 0

  expire_lem :
      (place' : ℕ) (p : Pending C)
      → called (expire place' p).calls + requested (expire place' p).requests
        ≡ called p.calls + requested p.requests + 0
  unfolding expire
  expire_lem place' p =
      let even = drop_request-Balance place' p.requests in
      elim (Option-cases (drop_request place' p.requests)) [
        | inl e ↦
            let same : expire place' p ≡ p = rw (expire, e) in
            subst (Keeps p) (sym same) (omega arith)
        | inr ((func, rest), e) ↦
            let next : Pending C = record p {
              requests = rest;
              calls = p.calls ++ ((func, timed_out) ∷ []);
            } in
            let same : expire place' p ≡ next = rw (expire, e) in
            subst (Keeps p) (sym same) (call_lem p func rest timed_out (rw e at even))
      ]

  step_lem :
      (e : Event C) (p : Pending C)
      → called (step e p).calls + requested (step e p).requests
        ≡ called p.calls + requested p.requests + started (e ∷ [])
  unfolding step start
  step_lem (starts func) p = omega (
    arith,
    requested-append p.requests (record { id = (p.last_id + 1) % 2 ^ 32; func = func } ∷ []),
  )
  step_lem (finishes id err) p = finish_lem id err p
  step_lem (expires place') p = expire_lem place' p

  started_cons :
      (e : Event C) (es : List (Event C)) → started (e ∷ es) ≡ started (e ∷ []) + started es
  started_cons (starts func) es = omega arith
  started_cons (finishes id err) es = omega arith
  started_cons (expires place') es = omega arith

  run_lem :
      (es : List (Event C)) (p : Pending C)
      → called (run es p).calls + requested (run es p).requests
        ≡ called p.calls + requested p.requests + started es
  unfolding run
  run_lem [] p = omega arith
  run_lem (e ∷ es) p = omega (arith, run_lem es (step e p), step_lem e p, started_cons e es)

  -- Whatever sequence of new requests, results for any id and timeouts an attribute goes through,
  -- once it is destroyed each callback has been called exactly as often as a request was started with
  -- it, and no request is left.
  pub attribute_destroy-run :
      (es : List (Event C))
      → let p = attribute_destroy (run es (record { last_id = 0; requests = []; calls = [] })) in
        (called p.calls ≡ started es) × (p.requests ≡ [])
  unfolding attribute_destroy
  attribute_destroy-run es =
      let fresh : Pending C = record { last_id = 0; requests = []; calls = [] } in
      let p = run es fresh in
      (
        omega (
          arith,
          run_lem es fresh,
          called-append p.calls (cancel_all p.requests),
          called-cancel_all p.requests,
        ),
        refl,
      )
