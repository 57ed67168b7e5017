-- ===== src/Custom/Laws.antt =====
-- custom.rs and client.rs: which methods are standard, and how a custom request gets to the client.
use tmcp.Base.{
  ℕ, ◌≤◌, ◌≡◌, refl, ap, ◌∙◌, subst, ◌↔◌, ◌⊎◌, inl, inr, true, false, Option, none, some, List, [],
  ◌∷◌, map, arith, ltb, Bool-cases, or-true, is_empty, ◌==◌, nat_eq, mem, Text, text_beq,
  text_beq_iff, text_eq, Result, ok, ◌>>=◌,
}
use tmcp.Base.Map.{get, remove, remove-absent}
use tmcp.Errors.{Error}
use tmcp.Requests.{RequestId}
use tmcp.JsonRpc.{
  Object, Request, RequestMeta, meta_key, meta_of, unless_empty, request_params, params_object,
}
use tmcp.Serving.{Serde}
use tmcp.Serving.Dispatch.{respond}
use tmcp.Custom.{
  CustomRequest, ParamsValue, is_server_request_method, encoded_len, check_payload, new_request,
  object, custom_payload_limit, with_payload_limit, prepare,
}
use tmcp.Custom.Client.{
  ServerRequest, ping, create_message, list_roots, elicit, get_task, get_task_payload, list_tasks,
  cancel_task, method_of, ClientHandler, handle_server_request, handle_custom_request,
}

mem-cases : (a x : Text) (xs : List Text) → mem a (x ∷ xs) ≡ true → (x ≡ a) ⊎ (mem a xs ≡ true)
unfolding mem
mem-cases a x xs h = elim (or-true (x == a) (mem a xs) h) [
  | inl same ↦ inl ((text_beq_iff x a).0 same)
  | inr later ↦ inr later
]

module _ {V : Type 0} where
  method_of-standard : (r : ServerRequest V) → is_server_request_method (method_of r) ≡ true
  unfolding is_server_request_method mem text_beq
  method_of-standard ping = refl
  method_of-standard (create_message params) = refl
  method_of-standard list_roots = refl
  method_of-standard (elicit params) = refl
  method_of-standard (get_task task_id) = refl
  method_of-standard (get_task_payload task_id) = refl
  method_of-standard (list_tasks cursor) = refl
  method_of-standard (cancel_task task_id) = refl

  abbrev samples : V → List (ServerRequest V)
  samples params =
      ping
      ∷ create_message params
      ∷ list_roots
      ∷ elicit params
      ∷ get_task []
      ∷ get_task_payload []
      ∷ list_tasks none
      ∷ cancel_task []
      ∷ []

  found :
      (method : Text) (requests : List (ServerRequest V))
      → mem method (map method_of requests) ≡ true
      → (r : ServerRequest V) × (method_of r ≡ method)
  unfolding mem
  found method [] h = cc
  found method (r ∷ requests) h = elim (mem-cases method (method_of r) (map method_of requests) h) [
    | inl same ↦ (r, same)
    | inr later ↦ found method requests later
  ]

  -- The methods that a custom request may not have, and that a client parses as standard requests,
  -- are exactly the methods of the requests in the schema.
  pub is_server_request_method_iff :
      (params : V) (method : Text)
      → (is_server_request_method method ≡ true) ↔ ((r : ServerRequest V) × (method_of r ≡ method))
  unfolding is_server_request_method
  is_server_request_method_iff params method = (
    λ h. found method (samples params) h,
    λ (r, same). subst (λ m. is_server_request_method m ≡ true) same (method_of-standard r),
  )

le→ltb-false : (a b : ℕ) → b ≤ a → ltb a b ≡ false
le→ltb-false a b h = ground (arith, h)

module _ {P : Type 0} (to_writer : P → Result Error (List Text)) where
  -- A payload whose encoding is within the limit is let through.
  check_payload-ok :
      (method : Text) (payload : P) (limit size : ℕ)
      → encoded_len to_writer payload ≡ ok size
      → size ≤ limit
      → check_payload to_writer method payload limit ≡ ok tt
  unfolding check_payload
  check_payload-ok method payload limit size e fits =
      rw (e, ◌>>=◌) (rw (le→ltb-false limit size fits) refl)

module _ {V : Type 0} where
  not_standard :
      (method : Text) (value : Result Error (ParamsValue V)) (r : CustomRequest V)
      → new_request method value ≡ ok r
      → is_server_request_method method ≡ false
  unfolding new_request
  not_standard method value r e = elim (Bool-cases (is_server_request_method method)) [
    | inl standard ↦ absurd (let h = rw (standard, new_request) at e in cc)
    | inr custom ↦ custom
  ]

  request-inj :
      (a b : CustomRequest V) → ◌≡◌ {A = Result Error (CustomRequest V)} (ok a) (ok b) → a ≡ b
  request-inj a b e = cc

  abbrev pub created : Text → Object V → CustomRequest V
  created method fields = record {
    method = method;
    params = some fields;
    timeout = none;
    payload_limit = custom_payload_limit;
  }

  new_request-created :
      (method : Text) (fields : Object V) (r : CustomRequest V)
      → new_request method (ok (object fields)) ≡ ok r
      → created method fields ≡ r
  unfolding new_request
  new_request-created method fields r e =
      request-inj (created method fields) r
        (rw (not_standard method (ok (object fields)) r e, new_request) at e)

  abbrev pub sent : Text → Object V → Request V
  sent method fields = record {
    method = method;
    params = some (record { meta = none; other = fields });
  }

  request_params-plain :
      (parse_meta : V → Option (RequestMeta V)) (fields : Object V)
      → get meta_key fields ≡ none
      → is_empty fields ≡ false
      → request_params parse_meta fields ≡ some (record { meta = none; other = fields })
  unfolding request_params
  request_params-plain parse_meta fields free full =
      let bare : meta_of parse_meta fields ≡ none = rw (meta_of, free) refl in
      let same : unless_empty (meta_of parse_meta fields) (remove meta_key fields)
          ≡ unless_empty none fields =
        (λ i. unless_empty (bare i) (remove-absent meta_key fields free i)) in
      same ∙ rw full refl

  module _ {R : Type 0} (serde : Serde V R)
      (parse_server_request : Object V → Result Text (ServerRequest V))
      (to_writer : Object V → Result Error (List Text)) (parse_meta : V → Option (RequestMeta V))
      (handler : ClientHandler V R) where
    -- A custom request arrives: if the server can create it, its params are an object with an entry
    -- and without `_meta`, and their encoding is within the limits of both sides, then the server
    -- sends it with its params, and the client answers with what its handler of custom requests
    -- answers to them.
    pub handle_server_request-prepare :
        (id : RequestId) (method : Text) (fields : Object V) (r : CustomRequest V) (limit size : ℕ)
        → new_request method (ok (object fields)) ≡ ok r
        → get meta_key fields ≡ none
        → is_empty fields ≡ false
        → encoded_len to_writer fields ≡ ok size
        → size ≤ limit
        → size ≤ handler.custom_request_limit
        → (prepare to_writer parse_meta (with_payload_limit limit r)
            ≡ ok (sent method fields, none, limit))
          × (handle_server_request serde parse_server_request to_writer handler id
                (sent method fields)
              ≡ respond serde id
                  (handler.custom_request id method (some (serde.object_value fields))))
    unfolding prepare handle_server_request handle_custom_request params_object
    handle_server_request-prepare id method fields r limit size e free full encoded within_limit
          within_handler =
        (
          subst
              (λ c.
                prepare to_writer parse_meta (with_payload_limit limit c)
                ≡ ok (sent method fields, none, limit))
              (new_request-created method fields r e)
              (ap
                  (λ checked. checked >>= (λ u. ok (
                    record { method = method; params = request_params parse_meta fields },
                    none,
                    limit,
                  )))
                  (check_payload-ok to_writer method fields limit size encoded within_limit)
                ∙ ap (λ params. ok (record { method = method; params = params }, none, limit))
                    (request_params-plain parse_meta fields free full)),
          ap (respond serde id) (
              rw (not_standard method (ok (object fields)) r e) (
                rw
                  (check_payload-ok to_writer method fields handler.custom_request_limit size
                    encoded within_handler)
                  refl)),
        )
