-- ===== src/Grpc/RequestId.antt =====
-- The request id that the client interceptor of pkg/logger/grpc/interceptor.go sends and the server
-- interceptor reads.
use kit_logger.Base.{
  ◌≡◌, ◌≢◌, refl, ap, ◌∙◌, false, Option, none, some, List, [], ◌∷◌, String, ◌==◌, eq_iff,
  Bool-cases, inl, inr,
}
use kit_logger.Grpc.Defs.{
  Code, CallError, status_error, Texts, Options, resolve, or_default_keys, or_later, skipped,
  Metadata, first_of, extract_loop, extract_request_id, Call, Outcome, returned, panicked,
}
use kit_logger.Grpc.Server.{context_id, unary_server}
use kit_logger.Grpc.Client.{first_key, outgoing, unary_client}
use kit_logger.Grpc.Handled.{client_sees, unary_server_lem}

-- the error of a call that has returned
pub error_of : {R : Type 0} → Outcome R → Option CallError
error_of (returned reply err) = err
error_of (panicked p) = none

first_of-value : (id : String) → id ≢ "" → first_of (id ∷ []) ≡ some id
first_of-value id named = elim (Bool-cases (id == "")) [
  | inl blank ↦ absurd (named ((eq_iff id "").0 blank))
  | inr other ↦ rw other refl
]

-- the first key is there
extract_loop-found :
    (md : Metadata) (k : String) (ks : List String) (id : String)
    → id ≢ ""
    → md k ≡ id ∷ []
    → extract_loop md (k ∷ ks) ≡ some id
unfolding extract_loop
extract_loop-found md k ks id named there =
    ap (or_later (extract_loop md ks)) (ap first_of there ∙ first_of-value id named)

extract_loop-first :
    (md : Metadata) (keys : List String) (id : String)
    → id ≢ ""
    → md (first_key (or_default_keys keys)) ≡ id ∷ []
    → extract_loop md (or_default_keys keys) ≡ some id
extract_loop-first md [] id named there =
    extract_loop-found md "x-request-id" ("x-correlation-id" ∷ []) id named there
extract_loop-first md (k ∷ ks) id named there = extract_loop-found md k ks id named there

module _ {M : Type 0} (tx : Texts M)
    (statuses : (c : Code) (s : String) → tx.code_of (status_error c s) ≡ c) where
  -- A unary call from a client with a request id, over a transport that delivers as metadata the pair
  -- that the client appends and makes of the server's error what the client gets, to a server with the
  -- same metadata keys and with recovery, neither side skipping the method: the server's handler runs
  -- with the client's request id, and the client gets what the transport makes of the handler's
  -- error, or of an Internal error in place of a panic.
  pub request_id-round_trip :
      (client server : Options) (ccall scall : Call) (req reply no_reply : M) (id : String)
      (deliver : Option (String × String) → Metadata) (carry : Option CallError → Option CallError)
      (handler : Option String → Outcome M)
      → client.metadata_keys ≡ server.metadata_keys
      → server.disable_panic_recovery ≡ false
      → skipped (resolve client) ccall.method ≡ false
      → skipped (resolve server) scall.method ≡ false
      → id ≢ ""
      → (let key = first_key (or_default_keys server.metadata_keys) in
          deliver (some (key, id)) key ≡ id ∷ [])
      → (let serve = (λ (pair : Option (String × String)). carry (
            error_of
              (unary_server tx server
                (record scall { metadata = some (deliver pair) })
                req
                no_reply
                none
                handler).0)) in
          (unary_client tx client ccall req reply (some id) serve).0
          ≡ carry (client_sees no_reply (handler (some id))).1)
  unfolding unary_client outgoing resolve extract_request_id error_of
  request_id-round_trip client server ccall scall req reply no_reply id deliver carry handler same
        on sends serves named arrives =
      let key = first_key (or_default_keys server.metadata_keys) in
      let md = deliver (some (key, id)) in
      let call = record scall { metadata = some md } in
      let (result, _, _, _, _) =
        unary_server_lem tx statuses server call req no_reply none handler on serves in
      let read = extract_loop-first md server.metadata_keys id named arrives in
      rw (sends, same)
        (ap (λ o. carry (error_of o)) result
          ∙ ap (λ o. carry (client_sees no_reply (handler (context_id o none))).1) read)
