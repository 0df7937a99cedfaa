-- ===== src/Executor/Fallback.antt =====
-- Whose answer a chat completion returns.
use open_model_gateway.Base.{
  ◌≡◌, refl, Bool, true, false, Option, none, some, List, [], ◌∷◌, Result, ok, err, Error, Act,
  after, handle, return, fail, if◌then◌else◌, Bool-cases, inl, inr,
}
use open_model_gateway.App.Acquire.{Resolved, Grant, acquire_rate_limits}
use open_model_gateway.Router.Engine.{Route, select_routes, resolve_deployment}
use open_model_gateway.Usage.Budget.{BudgetStatus}
use open_model_gateway.Executor.Chat.{
  Call, Gateway, ChatResponse, ChatResult, record_answer, after_answer, all_failed, on_answer,
  try_routes, released, with_limits, within_budget, chat_over, chat, too_many,
}

module _ (call : Call) where
  abbrev pub answer_or : Result ChatResponse → Option ChatResponse → Option ChatResponse
  answer_or (ok resp) later = some resp
  answer_or (err e) later = later

  -- The first answer of a route that can chat.
  unfoldable pub first_answer : List Route → Option ChatResponse
  first_answer [] = none
  first_answer (route ∷ routes) =
      let rest = first_answer routes in
      if route.has_chat then answer_or (call.answer route (resolve_deployment route)) rest else rest

  -- A result returned, if any, is the answer.
  abbrev pub IsAnswer : Option ChatResponse → Result ChatResult × Gateway call → Type 0
  IsAnswer answer (ok res, t) = answer ≡ some res.response
  IsAnswer answer (err e, t) = Unit {0}

  after-IsAnswer :
      {A : Type 0} (answer : Option ChatResponse) (f : A → Act (Gateway call) ChatResult)
      (r : Result A) (s : Gateway call)
      → ((a : A) (t : Gateway call) → IsAnswer answer (f a t))
      → IsAnswer answer (after f r s)
  after-IsAnswer answer f (ok a) s h = h a s
  after-IsAnswer answer f (err e) s h = tt

  record_answer-IsAnswer :
      (route : Route) (resp : ChatResponse) (s : Gateway call)
      → IsAnswer (some resp) (record_answer call route resp s)
  unfolding record_answer
  record_answer-IsAnswer route resp s =
      after-IsAnswer (some resp)
        (λ status. return (record { response = resp; budget_status = status })) _ _ λ status t. refl

  after_answer-IsAnswer :
      (r : Resolved) (route : Route) (resp : ChatResponse) (s : Gateway call)
      → IsAnswer (some resp) (after_answer call r route resp s)
  unfolding after_answer
  after_answer-IsAnswer r route resp s =
      after-IsAnswer (some resp) (λ _. record_answer call route resp) _ _
        λ _ t. record_answer-IsAnswer route resp t

  all_failed-IsAnswer :
      (last : Option (Error × Route)) (s : Gateway call) → IsAnswer none (all_failed call last s)
  unfolding all_failed
  all_failed-IsAnswer none s = tt
  all_failed-IsAnswer (some (e, route)) s = after-IsAnswer none (λ _. fail _) _ _ λ _ t. tt

  on_answer-IsAnswer :
      (r : Resolved) (route : Route)
      (later : Option (Error × Route) → Act (Gateway call) ChatResult) (reply : Result ChatResponse)
      (rest : Option ChatResponse) (s : Gateway call)
      → ((l : Option (Error × Route)) (t : Gateway call) → IsAnswer rest (later l t))
      → IsAnswer (answer_or reply rest) (on_answer call r route later reply s)
  unfolding on_answer
  on_answer-IsAnswer r route later (ok resp) rest s h = after_answer-IsAnswer r route resp s
  on_answer-IsAnswer r route later (err e) rest s h = h (some (e, route)) _

  try_routes-IsAnswer :
      (r : Resolved) (routes : List Route) (last : Option (Error × Route)) (s : Gateway call)
      → IsAnswer (first_answer routes) (try_routes call r routes last s)
  unfolding try_routes first_answer
  try_routes-IsAnswer r [] last s = all_failed-IsAnswer last s
  try_routes-IsAnswer r (route ∷ routes) last s =
      by_chat route.has_chat (try_routes-IsAnswer r routes last s) (
        on_answer-IsAnswer r route (try_routes call r routes)
          (call.answer route (resolve_deployment route)) (first_answer routes) s
          (try_routes-IsAnswer r routes))
    where
      by_chat :
          (able : Bool)
          → IsAnswer (first_answer routes) (try_routes call r routes last s)
          → IsAnswer
              (answer_or (call.answer route (resolve_deployment route)) (first_answer routes))
              (on_answer call r route
                (try_routes call r routes)
                (call.answer route (resolve_deployment route))
                s)
          → IsAnswer
              (if able
                then answer_or (call.answer route (resolve_deployment route)) (first_answer routes)
                else first_answer routes)
              ((if able
                  then on_answer call r route
                      (try_routes call r routes)
                      (call.answer route (resolve_deployment route))
                  else try_routes call r routes last)
                s)
      by_chat true skip tried = tried
      by_chat false skip tried = skip

  released-IsAnswer :
      (answer : Option ChatResponse) (g : Grant) (o : Result ChatResult × Gateway call)
      → IsAnswer answer o
      → IsAnswer answer (released call g o)
  unfolding released
  released-IsAnswer answer g (ok res, s) h = h
  released-IsAnswer answer g (err e, s) h = tt

  with_limits-IsAnswer :
      (routes : List Route) (s : Gateway call)
      → IsAnswer (first_answer routes) (with_limits call routes s)
  unfolding with_limits
  with_limits-IsAnswer routes s =
      by_result
        (acquire_rate_limits call.redis call.uuid_string call.connected call.limits call.rc
          call.alias call.now s.store).0
        (record s { store = _ })
    where
      by_result :
          (r : Result Grant) (t : Gateway call)
          → IsAnswer (first_answer routes) (
              handle
                (λ g u. released call g (try_routes call g.resolved routes none u))
                (λ e. fail (too_many "rate limit exceeded" e))
                r
                t)
      by_result (ok g) t =
          released-IsAnswer (first_answer routes) g _ (try_routes-IsAnswer g.resolved routes none t)
      by_result (err e) t = tt

  within_budget-IsAnswer :
      (routes : List Route) (status : BudgetStatus) (s : Gateway call)
      → IsAnswer (first_answer routes) (within_budget call routes status s)
  unfolding within_budget
  within_budget-IsAnswer routes status s = elim (Bool-cases status.exceeded) [
    | inl over ↦ rw over tt
    | inr under ↦ rw under (with_limits-IsAnswer routes s)
  ]

  chat_over-IsAnswer :
      (routes : List Route) (s : Gateway call)
      → IsAnswer (first_answer routes) (chat_over call routes s)
  unfolding chat_over
  chat_over-IsAnswer [] s = tt
  chat_over-IsAnswer (route ∷ routes) s =
      after-IsAnswer (first_answer (route ∷ routes)) (within_budget call (route ∷ routes)) _ _
        (within_budget-IsAnswer (route ∷ routes))

  -- A chat completion that succeeds returns the answer of the first of the selected routes that can chat
  -- and answers, in the order in which SelectRoutes gave them.
  pub chat-first_answer :
      (s : Gateway call)
      → IsAnswer
          (first_answer (select_routes call.intn s.engine call.alias call.nanos))
          (chat call s)
  unfolding chat
  chat-first_answer s =
      chat_over-IsAnswer (select_routes call.intn s.engine call.alias call.nanos) s
