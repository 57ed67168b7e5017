-- ===== src/Http/Sessions/Isolation.antt =====
-- What a request that names a session of another subject can do: nothing.
use tmcp.Base.{
  ℕ, ◌≡◌, refl, sym, ap, ◌∙◌, ◌≢◌, inl, inr, Bool, false, not, none, some, if◌then◌else◌, nat_eq,
  Text, text, text_eq, Result, ok, err, ◌>>=◌, >>=-eq-ok, Result-cases,
}
use tmcp.Base.Map.{get}
use tmcp.Requests.{request_id_eq}
use tmcp.Http.Validation.{Rejection, reject, UrlParsers, validate_origin, validate_protocol_version}
use tmcp.Http.Sessions.{
  Message, HttpSession, HttpServerState, Request, Answer, rejected, find_session,
  check_session_subject, session_id_header, subject_matches, reply_or, reject_if, touch,
}
use tmcp.Http.Sessions.Posts.{
  post_message, post_checked, post_to_session, handle_post, is_initialize, handle_initialize_post,
}
use tmcp.Http.Sessions.Streaming.{
  handle_get, handle_delete, get_session, delete_session, attached, accepts_sse,
}

-- The session that the headers name is bound to a subject, which is not the request's.
pub record IsForeign (state : HttpServerState) (req : Request) : Type 0 where
  pub session_id : Text
  pub session : HttpSession
  pub owner : Text
  pub names : session_id_header req.headers ≡ some session_id
  pub there : get session_id state.sessions ≡ some session
  pub bound : session.auth_subject ≡ some owner
  pub other : subject_matches req.subject owner ≡ false

find_session-IsForeign :
    (state : HttpServerState) (req : Request)
    → IsForeign state req
    → (e : Rejection) × (find_session state req.headers req.subject ≡ err e)
unfolding find_session check_session_subject
find_session-IsForeign state req f =
    elim (Result-cases (validate_protocol_version req.headers f.session.protocol_version)) [
      | inr (e, invalid) ↦ (e, rw (f.names, f.there, find_session) (rw invalid refl))
      | inl (u, valid) ↦ (
        reject 403 (text "Session is bound to a different subject"),
        rw (f.names, f.there, find_session)
            (rw (valid, f.bound, check_session_subject) (rw f.other refl)),
      )
    ]

module _ {A : Type 0} (m : Result Rejection A) (k : A → Result Rejection (HttpServerState × Answer))
    (state : HttpServerState) where
  -- A chain that cannot succeed is a rejection, and the state is what it was.
  rejects :
      ((a : A) (out : HttpServerState × Answer) → m ≡ ok a → k a ≢ ok out)
      → (e : Rejection) × (reply_or (m >>= k) state ≡ (state, rejected e))
  rejects never = elim (Result-cases m) [
    | inr (e, failed) ↦ (e, rw failed refl)
    | inl (a, fine) ↦ elim (Result-cases (k a)) [
      | inl (out, done) ↦ absurd (never a out fine done)
      | inr (e, failed) ↦
          (e, ap (λ x. reply_or (x >>= k) state) fine ∙ ap (λ x. reply_or x state) failed)
    ]
  ]

not_found :
    (state : HttpServerState) (req : Request) (found : Text × HttpSession)
    → IsForeign state req
    → find_session state req.headers req.subject ≢ ok found
not_found state req found f e =
    let (bad, failed) = find_session-IsForeign state req f in absurd (let h = sym failed ∙ e in cc)

-- A request that names a session of another subject is rejected and changes nothing, whether it is
-- a GET or a DELETE.
handle_get-IsForeign :
    (urls : UrlParsers) (slots : ℕ → ℕ) (now : ℕ) (state : HttpServerState) (req : Request)
    → IsForeign state req
    → ((e : Rejection) × (handle_get urls slots now state req ≡ (state, rejected e)))
      × ((e : Rejection) × (handle_delete urls state req ≡ (state, rejected e)))
unfolding handle_get handle_delete get_session delete_session
handle_get-IsForeign urls slots now state req f = (
  rejects (get_session urls state req) (λ found. ok (attached slots now state req found)) state
      (λ found out e done.
        let (u, a, e1) = >>=-eq-ok (validate_origin urls req.headers state.cors) _ e in
        let (v, b, e2) = >>=-eq-ok (validate_protocol_version req.headers none) _ e1 in
        let (w, c, e3) =
          >>=-eq-ok (reject_if (not (accepts_sse (get (text "accept") req.headers))) _) _ e2 in
        not_found state req found f e3),
  rejects (delete_session urls state req) _ state (λ found out e done.
      let (u, a, e1) = >>=-eq-ok (validate_origin urls req.headers state.cors) _ e in
      not_found state req found f e1),
)

-- A POST that names a session of another subject is rejected and changes nothing, if its message
-- can be read and does not initialize a session.
pub handle_post-IsForeign :
    (urls : UrlParsers) (parse : Text → Result Text Message) (now : ℕ) (state : HttpServerState)
    (req : Request) (fresh : Text) (started : Bool) (message : Message)
    → IsForeign state req
    → post_message urls parse state req ≡ ok message
    → is_initialize message ≡ false
    → (e : Rejection) × (handle_post urls parse now state req fresh started ≡ (state, rejected e))
unfolding handle_post
handle_post-IsForeign urls parse now state req fresh started message f read other =
    rejects (post_message urls parse state req)
      (post_checked urls parse now state req fresh started) state
      (λ m out e done.
        let same : m ≡ message = message_of m message (sym e ∙ read) in
        let (found, a, e1) = >>=-eq-ok (find_session state req.headers req.subject) _ (
          ap
            (λ b.
              (if b
                then ok (handle_initialize_post state m req.subject now fresh started)
                else (find_session state req.headers req.subject >>= λ found.
                    ok (post_to_session state found.0 (touch now found.1) m))))
            (sym (ap is_initialize same ∙ other))
          ∙ done) in
        not_found state req found f a)
  where
    message_of : (a b : Message) → ◌≡◌ {A = Result Rejection Message} (ok a) (ok b) → a ≡ b
    message_of a b e = cc
