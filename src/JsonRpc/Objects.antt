-- ===== src/JsonRpc/Objects.antt =====
-- The params of a request as one object: what the deserializer of a typed request sees.
use tmcp.Base.{
  ◌≡◌, refl, sym, ap, ◌∙◌, inl, inr, false, ◌&&◌, Option, none, some, [], ◌∷◌, Bool-cases,
  Option-cases, is_none, is_empty, ◌==◌, nat_eq, ==_iff, ==_self, Text, text_eq, Result, ok, ◌>>=◌,
  Result-cases,
}
use tmcp.Base.Map.{get, insert, remove, get-insert, remove-insert, remove-absent}
use tmcp.Errors.{Error}
use tmcp.JsonRpc.{
  Object, RequestMeta, RequestParams, meta_key, method_key, extend, params_object, request_params,
  request_object, tagged, unless_empty, meta_of,
}

-- The entry of the last writer.
abbrev over {ℓ} : {A : Type ℓ} → Option A → Option A → Option A
over none earlier = earlier
over (some a) earlier = some a

-- Keys are distinct, as in a `serde_json::Map`.
abbrev pub HasUniqueKeys : {V : Type 0} → Object V → Type 0
HasUniqueKeys [] = Unit
HasUniqueKeys ((key, value) ∷ rest) = (get key rest ≡ none) × HasUniqueKeys rest

module _ {V : Type 0} where
  -- Where the keys are distinct, `extend` lets the added entries win.
  pub get-extend :
      (key : Text) (object added : Object V)
      → HasUniqueKeys added
      → get key (extend object added) ≡ over (get key added) (get key object)
  unfolding extend get
  get-extend key object [] distinct = refl
  get-extend key object ((j, v) ∷ rest) distinct = elim (Bool-cases (j == key)) [
    | inl same ↦
        let same_key = (==_iff j key).0 same in
        rw (get-extend key (insert j v object) rest distinct.1)
          (rw (get-insert j key v object, same) (rw (← same_key) (rw distinct.0 refl)))
    | inr other ↦
        rw (get-extend key (insert j v object) rest distinct.1)
          (rw (get-insert j key v object, other) refl)
  ]

ok-inj : {V : Type 0} (a b : Object V) → ◌≡◌ {A = Result Error (Object V)} (ok a) (ok b) → a ≡ b
ok-inj a b e = cc

module _ {V : Type 0} (string_value : Text → V) (meta_value : RequestMeta V → Result Error V) where
  object_is :
      (method : Text) (params : RequestParams V) (fields object : Object V)
      → params_object meta_value params ≡ ok fields
      → request_object string_value meta_value method (some params) ≡ ok object
      → extend (tagged string_value method) fields ≡ object
  unfolding request_object
  object_is method params fields object e r = ok-inj _ _ (rw (e, ◌>>=◌) at r)

  -- Params with an entry `method` replace the method of the envelope.
  pub request_object-overridden :
      (method : Text) (params : RequestParams V) (fields object : Object V) (value : V)
      → params_object meta_value params ≡ ok fields
      → HasUniqueKeys fields
      → get method_key fields ≡ some value
      → request_object string_value meta_value method (some params) ≡ ok object
      → get method_key object ≡ some value
  unfolding request_object
  request_object-overridden method params fields object value e distinct there r =
      rw (← object_is method params fields object e r)
        (rw (get-extend method_key (tagged string_value method) fields distinct, there) refl)

module _ {V : Type 0} (meta_value : RequestMeta V → Result Error V)
    (parse_meta : V → Option (RequestMeta V)) where
  kept :
      (object other : Object V) (meta : Option (RequestMeta V))
      → meta_of parse_meta object ≡ meta
      → remove meta_key object ≡ other
      → (is_empty other && is_none meta) ≡ false
      → request_params parse_meta object ≡ some (record { meta = meta; other = other })
  unfolding request_params
  kept object other meta m r full =
      let same : unless_empty (meta_of parse_meta object) (remove meta_key object)
          ≡ unless_empty meta other =
        (λ i. unless_empty (m i) (r i)) in
      same ∙ rw full refl

  with_value :
      (meta : RequestMeta V) (value : V) (other : Object V)
      → parse_meta value ≡ some meta
      → meta_of parse_meta (insert meta_key value other) ≡ some meta
  with_value meta value other back =
      rw (meta_of, get-insert meta_key meta_key value other, ==_self meta_key) back

  without_value : (other : Object V) → get meta_key other ≡ none → meta_of parse_meta other ≡ none
  without_value other free = rw (meta_of, free) refl

  -- Params survive the way into one object and back, where metadata is deserialized from what it
  -- was serialized to, no other entry is named `_meta`, and there is something to carry.
  request_params-params_object :
      (params : RequestParams V) (fields : Object V)
      → ((meta : RequestMeta V) (value : V)
          → params.meta ≡ some meta
          → meta_value meta ≡ ok value
          → parse_meta value ≡ some meta)
      → get meta_key params.other ≡ none
      → (is_empty params.other && is_none params.meta) ≡ false
      → params_object meta_value params ≡ ok fields
      → request_params parse_meta fields ≡ some params
  unfolding params_object
  request_params-params_object params fields back free full e = elim (Option-cases params.meta) [
    | inl bare ↦
        let same : params.other ≡ fields = ok-inj _ _ (rw (bare, params_object) at e) in
        rw (← same) (
          kept params.other params.other none (without_value params.other free)
            (remove-absent meta_key params.other free) (rw bare at full)
          ∙ ap (λ m. some (record { meta = m; other = params.other })) (sym bare))
    | inr (meta, there) ↦ elim (Result-cases (meta_value meta)) [
      | inr (failure, failed) ↦ absurd (let h = rw (there, failed, params_object) at e in cc)
      | inl (value, serialized) ↦
          let same : insert meta_key value params.other ≡ fields =
            ok-inj _ _ (rw (there, serialized, params_object) at e) in
          rw (← same) (
            kept _ params.other (some meta)
              (with_value meta value params.other (back meta value there serialized))
              (remove-insert meta_key value params.other free) (rw there at full)
            ∙ ap (λ m. some (record { meta = m; other = params.other })) (sym there))
    ]
  ]
