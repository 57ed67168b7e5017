-- ===== src/Requests/Consistency.antt =====
-- What holds of a connection, and that each operation keeps it.
use tmcp.Base.{
  ℕ, ◌+◌, ◌%◌, ◌<◌, ◌≡◌, refl, sym, ap, ◌∙◌, subst, ◌⊎◌, inl, inr, Bool, true, false, ◌&&◌, ◌||◌,
  not, Option, some, List, [], ◌∷◌, ◌++◌, arith, Bool-cases, or-true, ◌==◌, nat_eq, ==_iff, mem,
  mem-append, Text, text, text_eq, decimal, decimal-inj,
}
use mathlib.Core.List.{append_cancel_left, append-nil}
use tmcp.Base.Map.{get, contains_key, insert, remove, get-insert, get-remove}
use tmcp.Requests.{
  request_id_eq, RequestId, string, response_tx, OutboundRequest, RequestHandler, Connection,
  request_id, u64_end, timeout_of, notices_of,
}
use tmcp.Requests.Operations.{shutdown, started, start, drop_request, dispatch_response}

pub contains_key-insert :
    {V : Type 0} (k j : RequestId) (v : V) (m : List (RequestId × V))
    → contains_key j (insert k v m) ≡ (k == j || contains_key j m)
contains_key-insert k j v m = ground (arith, get-insert k j v m)

pub contains_key-remove :
    {V : Type 0} (k j : RequestId) (m : List (RequestId × V))
    → contains_key j (remove k m) ≡ (not (k == j) && contains_key j m)
contains_key-remove k j m = ground (arith, get-remove k j m)

abbrev pub IsUnique : List RequestId → Type 0
IsUnique [] = Unit
IsUnique (x ∷ xs) = (mem x xs ≡ false) × IsUnique xs

IsUnique-append :
    (xs : List RequestId) (x : RequestId) → mem x xs ≡ false → IsUnique xs → IsUnique (xs ++ x ∷ [])
IsUnique-append [] x h u = (unfold mem in refl, tt)
IsUnique-append (y ∷ xs) x h u = (
  unfold mem in ground (arith, mem-append y xs (x ∷ []), ==_iff y x, ==_iff x y),
  IsUnique-append xs x (unfold mem in ground (arith)) u.1,
)

-- An id that was given to a request before.
abbrev pub IsIssued : RequestHandler → RequestId → Type 0
IsIssued h id = (k : ℕ) × (k < h.next_request_id) × (id ≡ request_id h.id_prefix k)

pub record IsConsistent {Response : Type 0} (c : Connection Response) : Type 0 where
  -- A pending slot belongs to a request that was not dropped.
  pub slots :
      (id : RequestId)
      → contains_key id c.handler.pending_requests ≡ true
      → contains_key id c.live ≡ true
  -- A response waits only for a request that was not dropped and has no slot any more.
  pub answered :
      (id : RequestId)
      → contains_key id c.delivered ≡ true
      → (contains_key id c.live ≡ true) × (contains_key id c.handler.pending_requests ≡ false)
  -- A notice names a request that was dropped.
  pub quiet : (id : RequestId) → mem id c.notices ≡ true → contains_key id c.live ≡ false
  pub named : (id : RequestId) (o : OutboundRequest) → get id c.live ≡ some o → o.id ≡ id
  pub issued :
      (id : RequestId) → (contains_key id c.live || mem id c.notices) ≡ true → IsIssued c.handler id
  -- No request is cancelled twice.
  pub once : IsUnique c.notices

request_id-inj :
    (id_prefix : Text) (m n : ℕ) → request_id id_prefix m ≡ request_id id_prefix n → m ≡ n
unfolding request_id
request_id-inj id_prefix m n e =
    decimal-inj m n
      (tail_of (after (id_prefix ++ text "-" ++ decimal m) (id_prefix ++ text "-" ++ decimal n) e))
  where
    after : (a b : Text) → string a ≡ string b → a ≡ b
    after a b e = cc

    tail_of :
        id_prefix ++ text "-" ++ decimal m ≡ id_prefix ++ text "-" ++ decimal n
        → decimal m ≡ decimal n
    tail_of e = append_cancel_left (id_prefix ++ text "-") (decimal m) (decimal n) e

notices_of-cases :
    (o : OutboundRequest) (h : RequestHandler) (receiver : Bool)
    → (notices_of o h receiver ≡ []) ⊎ (notices_of o h receiver ≡ o.id ∷ [])
notices_of-cases o h receiver =
    elim (Bool-cases
      (contains_key o.id h.pending_requests && o.cancel && not h.shutting_down && receiver)) [
        | inl sent ↦ inr (rw sent refl)
        | inr silent ↦ inl (rw silent refl)
      ]

mem-notices :
    (id : RequestId) (xs : List RequestId) (o : OutboundRequest) (h : RequestHandler)
    (receiver : Bool)
    → mem id (xs ++ notices_of o h receiver) ≡ true
    → (mem id xs ≡ true) ⊎ (o.id ≡ id)
mem-notices id xs o h receiver m = elim (notices_of-cases o h receiver) [
  | inl silent ↦ inl (
      subst (λ ys. mem id ys ≡ true) (append-nil xs)
        (subst (λ ys. mem id (xs ++ ys) ≡ true) silent m))
  | inr sent ↦
      let m' = subst (λ ys. mem id (xs ++ ys) ≡ true) sent m in
      elim (or-true (mem id xs) (mem id (o.id ∷ [])) (sym (mem-append id xs (o.id ∷ [])) ∙ m')) [
        | inl old ↦ inl old
        | inr new ↦ inr (unfold mem in ground (arith, ==_iff o.id id))
      ]
]

once-notices :
    (xs : List RequestId) (o : OutboundRequest) (h : RequestHandler) (receiver : Bool)
    → mem o.id xs ≡ false
    → IsUnique xs
    → IsUnique (xs ++ notices_of o h receiver)
once-notices xs o h receiver m u = elim (notices_of-cases o h receiver) [
  | inl silent ↦
      subst (λ ys. IsUnique (xs ++ ys)) (sym silent) (subst IsUnique (sym (append-nil xs)) u)
  | inr sent ↦ subst (λ ys. IsUnique (xs ++ ys)) (sym sent) (IsUnique-append xs o.id m u)
]

apart :
    (a b : RequestId) (m : List (RequestId × OutboundRequest)) (xs : List RequestId)
    → (contains_key a m || mem a xs) ≡ false
    → (contains_key b m ≡ true) ⊎ (mem b xs ≡ true)
    → (a == b) ≡ false
apart a b m xs new old = elim (Bool-cases (a == b)) [
  | inr other ↦ other
  | inl same ↦
      let new' = rw ((==_iff a b).0 same) at new in
      elim old [ inl on ↦ absurd (ground arith) | inr told ↦ absurd (ground arith) ]
]

some_of : (a b : OutboundRequest) → some a ≡ some b → a ≡ b
some_of a b e = cc

module _ {Response : Type 0} where
  fresh :
      (c : Connection Response)
      → IsConsistent c
      → (contains_key (request_id c.handler.id_prefix c.handler.next_request_id) c.live
          || mem (request_id c.handler.id_prefix c.handler.next_request_id) c.notices)
        ≡ false
  fresh c w =
      let id = request_id c.handler.id_prefix c.handler.next_request_id in
      elim (Bool-cases (contains_key id c.live || mem id c.notices)) [
        | inr new ↦ new
        | inl old ↦
            let (k, below, same) = w.issued id old in
            absurd (
              omega
                (arith, below, request_id-inj c.handler.id_prefix c.handler.next_request_id k same))
      ]

  pub drop_request-IsConsistent :
      (c : Connection Response) (o o' : OutboundRequest)
      → IsConsistent c
      → get o.id c.live ≡ some o'
      → IsConsistent (drop_request o c)
  unfolding drop_request
  drop_request-IsConsistent c o o' w found = record {
    slots = λ id h.
        unfold drop_request in
        ground (
          arith,
          w.slots id,
          contains_key-remove o.id id c.handler.pending_requests,
          contains_key-remove o.id id c.live,
        );
    answered = λ id h. ground (
      arith,
      w.answered id,
      contains_key-remove o.id id c.handler.pending_requests,
      contains_key-remove o.id id c.live,
      contains_key-remove o.id id c.delivered,
    );
    quiet = λ id h. elim (mem-notices id c.notices o c.handler c.queue_open h) [
      | inl old ↦ ground (arith, w.quiet id old, contains_key-remove o.id id c.live)
      | inr same ↦ ground (arith, ==_iff o.id id, contains_key-remove o.id id c.live)
    ];
    named = λ id q h. w.named id q (ground (arith, get-remove o.id id c.live));
    issued = λ id h.
        elim (or-true (contains_key id (remove o.id c.live))
          (mem id (c.notices ++ notices_of o c.handler c.queue_open)) h) [
            | inl on ↦ w.issued id (ground (arith, contains_key-remove o.id id c.live))
            | inr told ↦ elim (mem-notices id c.notices o c.handler c.queue_open told) [
              | inl old ↦ w.issued id (ground arith)
              | inr same ↦ w.issued id (rw (← same) (rw found refl))
            ]
          ];
    once =
        once-notices c.notices o c.handler c.queue_open (not_told (mem o.id c.notices) refl) w.once;
  }
    where
      not_told : (b : Bool) → mem o.id c.notices ≡ b → mem o.id c.notices ≡ false
      not_told false e = e
      not_told true e = absurd (ground (arith, w.quiet o.id e))

  pub start-IsConsistent :
      (checked_add : ℕ → ℕ → Option ℕ) (c : Connection Response) (now : ℕ) (override : Option ℕ)
      (cancel : Bool)
      → IsConsistent c
      → c.handler.next_request_id + 1 < u64_end
      → IsConsistent (start checked_add now override cancel c)
  unfolding start
  start-IsConsistent checked_add c now override cancel w room =
      let o = started checked_add now (timeout_of c.handler override) cancel c.handler in
      let new = fresh c w in
      let next : (c.handler.next_request_id + 1) % u64_end ≡ c.handler.next_request_id + 1 =
        omega (arith, room) in
      record {
        slots = λ id h. ground (
          arith,
          w.slots id,
          contains_key-insert o.id id response_tx c.handler.pending_requests,
          contains_key-insert o.id id o c.live,
        );
        answered = λ id h.
            let (on, no_slot) = w.answered id h in
            let other = apart o.id id c.live c.notices new (inl on) in
            (
              contains_key-insert o.id id o c.live ∙ rw (on, other) refl,
              contains_key-insert o.id id response_tx c.handler.pending_requests
                  ∙ rw (no_slot, other) refl,
            );
        quiet = λ id h.
            contains_key-insert o.id id o c.live
            ∙ rw (apart o.id id c.live c.notices new (inr h), w.quiet id h) refl;
        named = λ id q h. elim (Bool-cases (o.id == id)) [
          | inl same ↦
              let found : some o ≡ some q = ground (arith, get-insert o.id id o c.live) in
              ap (λ x. x.id) (sym (some_of o q found)) ∙ (==_iff o.id id).0 same
          | inr other ↦ w.named id q (ground (arith, get-insert o.id id o c.live))
        ];
        issued = λ id h. elim (Bool-cases (o.id == id)) [
          | inl same ↦
              (c.handler.next_request_id, omega (arith, next), sym ((==_iff o.id id).0 same))
          | inr other ↦
              let old : (contains_key id c.live || mem id c.notices) ≡ true =
                ground (arith, contains_key-insert o.id id o c.live) in
              let (k, below, same) = w.issued id old in (k, omega (arith, next, below), same)
        ];
        once = w.once;
      }

  pub shutdown-IsConsistent : (c : Connection Response) → IsConsistent c → IsConsistent (shutdown c)
  unfolding shutdown
  shutdown-IsConsistent c w = record {
    slots = λ id h. absurd (unfold get in cc);
    answered = λ id h. ((w.answered id h).0, unfold get in refl);
    quiet = w.quiet;
    named = w.named;
    issued = w.issued;
    once = w.once;
  }

  pub dispatch_response-IsConsistent :
      (c : Connection Response) (id : RequestId) (r : Response)
      → IsConsistent c
      → IsConsistent (dispatch_response id r c)
  unfolding dispatch_response
  dispatch_response-IsConsistent c id r w =
      elim (Bool-cases (contains_key id c.handler.pending_requests)) [
        | inr absent ↦ rw absent w
        | inl waiting ↦
            let on = w.slots id waiting in
            rw (waiting, on)
              (record {
                slots = λ j h.
                    w.slots j (ground (arith, contains_key-remove id j c.handler.pending_requests));
                answered = λ j h. elim (Bool-cases (id == j)) [
                  | inl same ↦ (
                    rw (← ((==_iff id j).0 same)) on,
                    contains_key-remove id j c.handler.pending_requests ∙ rw same refl,
                  )
                  | inr other ↦
                      let (live, no_slot) =
                        w.answered j (ground (arith, contains_key-insert id j r c.delivered)) in
                      (
                        live,
                        contains_key-remove id j c.handler.pending_requests
                            ∙ rw (other, no_slot) refl,
                      )
                ];
                quiet = w.quiet;
                named = w.named;
                issued = w.issued;
                once = w.once;
              })
      ]
