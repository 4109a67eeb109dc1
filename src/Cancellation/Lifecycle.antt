-- ===== src/Cancellation/Lifecycle.antt =====
-- The life of one request under any calls of cancellation_registry.cpp on any requests.
use aviutl2mcp.Common.{
  ◌≡◌, ◌≢◌, inl, inr, refl, ap, ◌∙◌, Bool, true, false, Option, none, some, List, [], ◌∷◌, Bytes,
  IsBytes, bytes_eq, eq_of-bytes_eq, bytes_eq_refl, if◌then◌else◌, arith, Bool-cases, All,
}
use aviutl2mcp.Common.Maps.{bytes_Eq, find, find-assign, find-erase}
use aviutl2mcp.Common.Hex.{hex-injective}
use aviutl2mcp.Cancellation.{
  RequestState, queued, executing, committed, CancelStatus, too_late, Registry, create_key,
  state_of, register_request, set_state, try_begin, try_reach_commit_point, is_cancelled, cancel,
  complete, cancel_state, cancel_all,
}

-- A call that changes the registry.
pub data Call : Type 0 where
  registers begins commits cancels completes : Bytes → Call
  cancels_all : Call

pub apply : Call → Registry → Registry
apply (registers id) r = (register_request id r).0
apply (begins id) r = (try_begin id r).0
apply (commits id) r = (try_reach_commit_point id r).0
apply (cancels id) r = (cancel id r).0
apply (completes id) r = complete id r
apply cancels_all r = cancel_all r

pub run : List Call → Registry → Registry
run [] r = r
run (c ∷ cs) r = run cs (apply c r)

-- The edges of a request's life. There is none from `committed` to `cancelled` or back.
pub data Edge (s t : Option RequestState) : Type 0 where
  stay : t ≡ s → Edge s t
  enter : s ≡ none → t ≡ some queued → Edge s t
  start : s ≡ some queued → t ≡ some executing → Edge s t
  commit : s ≡ some executing → t ≡ some committed → Edge s t
  withdraw : s ≢ none → s ≢ some committed → t ≡ some RequestState.cancelled → Edge s t

ruleset moves = (stay, enter, start, commit, withdraw)

pub state_of-set_state :
    (i j : Bytes) (s : RequestState) (r : Registry)
    → state_of j (set_state i s r) ≡ elim (state_of j r) [
      | none ↦ none
      | some w ↦ if bytes_eq (create_key i) (create_key j) then some s else some w
    ]
unfolding state_of
state_of-set_state i j s r = find-assign (create_key i) (create_key j) s r

-- The request of a key is the only one.
pub state_of-key :
    (i j : Bytes) (r : Registry)
    → bytes_eq (create_key i) (create_key j) ≡ true
    → state_of i r ≡ state_of j r
unfolding state_of
state_of-key i j r h = ap (λ k. find k r) (eq_of-bytes_eq _ _ h)

unfoldable pub cancel_one : Option RequestState → Option RequestState
cancel_one none = none
cancel_one (some s) = some (cancel_state s)

pub state_of-cancel_all :
    (j : Bytes) (r : Registry) → state_of j (cancel_all r) ≡ cancel_one (state_of j r)
unfolding state_of find cancel_all cancel_one
state_of-cancel_all j [] = refl
state_of-cancel_all j ((k, s) ∷ r) = ground (arith, state_of-cancel_all j r)

pub state_of-cons :
    (i j : Bytes) (s : RequestState) (r : Registry)
    → state_of j ((create_key i, s) ∷ r)
      ≡ (if bytes_eq (create_key i) (create_key j) then some s else state_of j r)
unfolding state_of find
state_of-cons i j s r = refl

module _ (i j : Bytes) (r : Registry) where
  same_key : Bool
  same_key = bytes_eq (create_key i) (create_key j)

  register_request-Edge : Edge (state_of j r) (state_of j (register_request i r).0)
  unfolding register_request same_key
  register_request-Edge = elim (Bool-cases same_key) [
    | inl same ↦ grind (arith, moves, state_of-cons i j queued r, state_of-key i j r same)
    | inr other ↦ stay (ground (arith, state_of-cons i j queued r))
  ]

  begin-Edge : Edge (state_of j r) (state_of j (try_begin i r).0)
  unfolding try_begin same_key
  begin-Edge = elim (Bool-cases same_key) [
    | inl same ↦ grind (arith, moves, state_of-set_state i j executing r, state_of-key i j r same)
    | inr other ↦ stay (ground (arith, state_of-set_state i j executing r))
  ]

  commit-Edge : Edge (state_of j r) (state_of j (try_reach_commit_point i r).0)
  unfolding try_reach_commit_point same_key
  commit-Edge = elim (Bool-cases same_key) [
    | inl same ↦ grind (arith, moves, state_of-set_state i j committed r, state_of-key i j r same)
    | inr other ↦ stay (ground (arith, state_of-set_state i j committed r))
  ]

  cancel-Edge : Edge (state_of j r) (state_of j (cancel i r).0)
  unfolding cancel same_key
  cancel-Edge = elim (Bool-cases same_key) [
    | inl same ↦
        grind
          (arith, moves, state_of-set_state i j RequestState.cancelled r, state_of-key i j r same)
    | inr other ↦ stay (ground (arith, state_of-set_state i j RequestState.cancelled r))
  ]

  state_of-complete : state_of j (complete i r) ≡ (if same_key then none else state_of j r)
  unfolding complete state_of same_key
  state_of-complete = find-erase (create_key i) (create_key j) r

cancel_all-Edge : (j : Bytes) (r : Registry) → Edge (state_of j r) (state_of j (cancel_all r))
unfolding cancel_one cancel_state
cancel_all-Edge j r = rw (state_of-cancel_all j r) (one (state_of j r))
  where
    one : (s : Option RequestState) → Edge s (cancel_one s)
    one none = stay refl
    one (some queued) = withdraw (λ e. cc) (λ e. cc) refl
    one (some executing) = withdraw (λ e. cc) (λ e. cc) refl
    one (some committed) = stay refl
    one (some RequestState.cancelled) = stay refl

-- A call other than the completion of the request `j`.
abbrev pub Spares : Bytes → Call → Type 0
Spares j (completes i) = IsBytes i × (i ≢ j)
Spares j _ = Unit

other_key :
    (i j : Bytes) → IsBytes i → IsBytes j → i ≢ j → bytes_eq (create_key i) (create_key j) ≡ false
unfolding create_key
other_key i j p q ne = elim (Bool-cases (bytes_eq (create_key i) (create_key j))) [
  | inl same ↦ absurd (ne (hex-injective i j p q (eq_of-bytes_eq _ _ same)))
  | inr other ↦ other
]

-- A call moves each request that it does not complete along an edge of its life, or not at all;
-- the completion of a request forgets it.
pub apply-Edge :
    (c : Call) (j : Bytes) (r : Registry)
    → IsBytes j
    → Spares j c
    → Edge (state_of j r) (state_of j (apply c r)) × (state_of j (apply (completes j) r) ≡ none)
unfolding apply
apply-Edge c j r byte spared =
    (edge c spared, rw (state_of-complete j j r) (unfold same_key in rw bytes_eq_refl))
  where
    edge : (c : Call) → Spares j c → Edge (state_of j r) (state_of j (apply c r))
    edge (registers i) h = register_request-Edge i j r
    edge (begins i) h = begin-Edge i j r
    edge (commits i) h = commit-Edge i j r
    edge (cancels i) h = cancel-Edge i j r
    edge (completes i) (p, ne) =
        stay (state_of-complete i j r ∙ unfold same_key in rw (other_key i j p byte ne))
    edge cancels_all h = cancel_all-Edge j r

-- `committed` and `cancelled` have no edge to another state.
settled :
    (s t : Option RequestState)
    → Edge s t
    → ((s ≡ some committed) → t ≡ some committed)
      × ((s ≡ some RequestState.cancelled) → t ≡ some RequestState.cancelled)
settled s t (stay e) = (λ h. cc, λ h. cc)
settled s t (enter e f) = (λ h. cc, λ h. cc)
settled s t (start e f) = (λ h. cc, λ h. cc)
settled s t (commit e f) = (λ h. cc, λ h. cc)
settled s t (withdraw n m f) = (λ h. absurd (m h), λ h. f)

run-settled :
    (cs : List Call) (j : Bytes) (r : Registry)
    → IsBytes j
    → All (Spares j) cs
    → ((state_of j r ≡ some committed) → state_of j (run cs r) ≡ some committed)
      × ((state_of j r ≡ some RequestState.cancelled)
          → state_of j (run cs r) ≡ some RequestState.cancelled)
unfolding run
run-settled [] j r byte h = (λ e. e, λ e. e)
run-settled (c ∷ cs) j r byte h =
    let kept = settled (state_of j r) (state_of j (apply c r)) (apply-Edge c j r byte h.0).0 in
    let rest = run-settled cs j (apply c r) byte h.1 in
    (λ e. rest.0 (kept.0 e), λ e. rest.1 (kept.1 e))

cancel_settles :
    (j : Bytes) (r : Registry)
    → (cancel j r).1.status ≡ CancelStatus.cancelled
    → state_of j (cancel j r).0 ≡ some RequestState.cancelled
unfolding cancel
cancel_settles j r h =
    ground (arith, state_of-set_state j j RequestState.cancelled r, bytes_eq_refl (create_key j))

commit_settles :
    (j : Bytes) (r : Registry)
    → (try_reach_commit_point j r).1 ≡ true
    → state_of j (try_reach_commit_point j r).0 ≡ some committed
unfolding try_reach_commit_point
commit_settles j r h =
    ground (arith, state_of-set_state j j committed r, bytes_eq_refl (create_key j))

cancelled_answers :
    (j : Bytes) (r : Registry)
    → state_of j r ≡ some RequestState.cancelled
    → ((try_begin j r).1 ≡ false)
      × ((try_reach_commit_point j r).1 ≡ false)
      × (is_cancelled j r ≡ true)
unfolding try_begin try_reach_commit_point is_cancelled
cancelled_answers j r e = (rw (e, try_begin), rw (e, try_reach_commit_point), rw (e, is_cancelled))

committed_answers :
    (j : Bytes) (r : Registry)
    → state_of j r ≡ some committed
    → ((cancel j r).1 ≡ record { status = too_late; response_will_follow = true })
      × (is_cancelled j r ≡ false)
      × ((try_reach_commit_point j r).1 ≡ true)
unfolding cancel try_reach_commit_point is_cancelled
committed_answers j r e = (rw (e, cancel), rw (e, is_cancelled), rw (e, try_reach_commit_point))

-- Once `cancel` has answered `cancelled`, and until the request is completed, whatever else is
-- called: the request never begins and never reaches its commit point, and it reads as cancelled.
pub cancelled_never_commits :
    (j : Bytes) (r : Registry) (cs : List Call)
    → IsBytes j
    → All (Spares j) cs
    → (cancel j r).1.status ≡ CancelStatus.cancelled
    → let later = run cs (cancel j r).0 in
      ((try_begin j later).1 ≡ false)
      × ((try_reach_commit_point j later).1 ≡ false)
      × (is_cancelled j later ≡ true)
cancelled_never_commits j r cs byte spared h =
    cancelled_answers j (run cs (cancel j r).0)
      ((run-settled cs j (cancel j r).0 byte spared).1 (cancel_settles j r h))

-- Once `try_reach_commit_point` has answered true, and until the request is completed, whatever
-- else is called: `cancel` is too late, and the request does not read as cancelled.
pub committed_never_cancelled :
    (j : Bytes) (r : Registry) (cs : List Call)
    → IsBytes j
    → All (Spares j) cs
    → (try_reach_commit_point j r).1 ≡ true
    → let later = run cs (try_reach_commit_point j r).0 in
      ((cancel j later).1 ≡ record { status = too_late; response_will_follow = true })
      × (is_cancelled j later ≡ false)
      × ((try_reach_commit_point j later).1 ≡ true)
committed_never_cancelled j r cs byte spared h =
    committed_answers j (run cs (try_reach_commit_point j r).0)
      ((run-settled cs j (try_reach_commit_point j r).0 byte spared).0 (commit_settles j r h))
