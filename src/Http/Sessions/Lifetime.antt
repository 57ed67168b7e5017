-- ===== src/Http/Sessions/Lifetime.antt =====
-- How many sessions there are, initializations that fail, and sessions that expire.
use tmcp.Base.{
  ℕ, ◌≡◌, refl, sym, ap, ◌∙◌, subst, inl, inr, Bool, true, false, Option, none, some, List, [], ◌∷◌,
  arith, leb, if◌then◌else◌, Bool-cases, Option-cases, length, any, ◌==◌, nat_eq, ==_iff, ==_self,
  mem, Text, text_eq,
}
use tmcp.Base.Map.{
  get, insert, get-insert, get-remove, remove-insert, HasDistinctKeys, get-map_values,
}
use tmcp.Requests.{request_id_eq}
use tmcp.Http.Sessions.{
  with_session, Message, request, notification, response, HttpSession, HttpServerState,
  awaits_initialize, remove_session, max_sessions,
}
use tmcp.Http.Sessions.Posts.{
  handle_initialize_post, finish_initialize, new_session, is_error_response,
}
use tmcp.Http.Sessions.Cleanup.{
  is_expired, cleanup_sessions, remove_sessions, expired_sessions, clear_stream,
}

-- No answer, or an error.
abbrev is_failure : Option Message → Bool
is_failure none = true
is_failure (some message) = is_error_response message

abbrev option_list : {A : Type 0} → Option A → List A
option_list none = []
option_list (some a) = a ∷ []

finish_removes :
    (state : HttpServerState) (session_id : Text) (answer : Option Message)
    → is_failure answer ≡ true
    → (finish_initialize state session_id answer).0 ≡ remove_session state session_id
unfolding finish_initialize
finish_removes state session_id none failed = refl
finish_removes state session_id (some message) failed = rw failed refl

removes_fresh :
    (state : HttpServerState) (session_id : Text) (session : HttpSession)
    → get session_id state.sessions ≡ none
    → (remove_session (with_session state session_id session) session_id).sessions ≡ state.sessions
unfolding remove_session
removes_fresh state session_id session fresh =
    let there : get session_id (insert session_id session state.sessions) ≡ some session =
      get-insert session_id session_id session state.sessions ∙ rw (==_self session_id) refl in
    rw (there, remove_session) (remove-insert session_id session state.sessions fresh)

-- What is there while an initialization waits for its answer.
initializing :
    (state started_state : HttpServerState) (message : Message) (subject : Option Text) (now : ℕ)
    (session_id : Text) (started : Bool)
    → handle_initialize_post state message subject now session_id started
      ≡ (started_state, awaits_initialize session_id)
    → (session : HttpSession) × (started_state ≡ with_session state session_id session)
unfolding handle_initialize_post
initializing state started_state (notification cancelled content) subject now session_id started e =
    absurd (let h = ap (λ x. x.1) e in cc)
initializing state started_state (response error version content) subject now session_id started e =
    absurd (let h = ap (λ x. x.1) e in cc)
initializing state started_state (request id method content) subject now session_id started e =
    elim (Bool-cases (leb max_sessions (length state.sessions))) [
      | inl full ↦ absurd (let h = ap (λ x. x.1) (rw full at e) in cc)
      | inr room ↦ elim (Bool-cases started) [
        | inr no_loop ↦ absurd (let h = ap (λ x. x.1) (rw (room, no_loop) at e) in cc)
        | inl running ↦ (
          new_session now id (request id method content) subject,
          sym (ap (λ x. x.0) (rw (room, running) at e)),
        )
      ]
    ]

-- An initialization that the server answers with an error, or that gets no answer, leaves the
-- sessions as they were, if the id is fresh.
pub finish_initialize-failed :
    (state started_state : HttpServerState) (message : Message) (subject : Option Text) (now : ℕ)
    (session_id : Text) (started : Bool) (answer : Option Message)
    → get session_id state.sessions ≡ none
    → handle_initialize_post state message subject now session_id started
      ≡ (started_state, awaits_initialize session_id)
    → is_failure answer ≡ true
    → (finish_initialize started_state session_id answer).0.sessions ≡ state.sessions
unfolding handle_initialize_post finish_initialize remove_session
finish_initialize-failed state started_state message subject now session_id started answer fresh e
      failed =
    ap (λ x. x.sessions) (finish_removes started_state session_id answer failed)
    ∙ (let (session, made) =
          initializing state started_state message subject now session_id started e in
        ap (λ x. (remove_session x session_id).sessions) made
        ∙ removes_fresh state session_id session fresh)

get-remove_session :
    (state : HttpServerState) (session_id k : Text)
    → get k (remove_session state session_id).sessions
      ≡ (if session_id == k then none else get k state.sessions)
unfolding remove_session
get-remove_session state session_id k = elim (Option-cases (get session_id state.sessions)) [
  | inr (session, there) ↦ rw (there, remove_session) (get-remove session_id k state.sessions)
  | inl absent ↦
      rw (absent, remove_session)
        (elim (Bool-cases (session_id == k)) [
          | inr other ↦ rw other refl
          | inl same ↦ rw same (rw (← ((==_iff session_id k).0 same)) absent)
        ])
]

get-remove_sessions :
    (ids : List Text) (state : HttpServerState) (k : Text)
    → get k (remove_sessions ids state).sessions
      ≡ (if mem k ids then none else get k state.sessions)
unfolding remove_sessions mem
get-remove_sessions [] state k = refl
get-remove_sessions (session_id ∷ ids) state k =
    get-remove_sessions ids (remove_session state session_id) k
    ∙ ground (arith, get-remove_session state session_id k)

mem-expired_sessions :
    (now : ℕ) (sessions : List (Text × HttpSession)) (k : Text)
    → HasDistinctKeys sessions
    → mem k (expired_sessions now sessions)
      ≡ (any (λ session. is_expired now session) (option_list (get k sessions)))
unfolding mem expired_sessions get
mem-expired_sessions now [] k d = refl
mem-expired_sessions now ((session_id, session) ∷ rest) k d =
    let later = mem-expired_sessions now rest k d.1 in
    elim (Bool-cases (session_id == k)) [
      | inr other ↦ rw other (ground (arith, later))
      | inl same ↦
          let absent = subst (λ x. get x rest ≡ none) ((==_iff session_id k).0 same) d.0 in
          let unseen : mem k (expired_sessions now rest) ≡ false = later ∙ rw absent refl in
          elim (Bool-cases (is_expired now session)) [
            | inl over ↦ rw (same, over) (unfold mem in rw same refl)
            | inr fresh ↦ rw (same, fresh) unseen
          ]
    ]

-- Where session ids are distinct, a tick of the cleanup removes exactly the sessions that have no
-- live stream and were idle for longer than the timeout, and keeps every other one, but for the
-- slot of a stream that is dead.
cleanup_sessions-get :
    (now : ℕ) (state : HttpServerState) (k : Text) (session : HttpSession)
    → HasDistinctKeys state.sessions
    → get k state.sessions ≡ some session
    → get k (cleanup_sessions now state).sessions
      ≡ (if is_expired now session then none else some (clear_stream session))
unfolding cleanup_sessions
cleanup_sessions-get now state k session d there =
    get-remove_sessions (expired_sessions now state.sessions) _ k
    ∙ rw (mem-expired_sessions now state.sessions k d, there)
        (rw (get-map_values k clear_stream state.sessions, there)
          (elim (Bool-cases (is_expired now session)) [
            | inl over ↦ rw over refl
            | inr fresh ↦ rw fresh refl
          ]))
