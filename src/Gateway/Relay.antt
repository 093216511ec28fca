-- ===== src/Gateway/Relay.antt =====
-- A stream of the gateway's provider, as the orchestrator's assembler sees it.
use harness_ai.Prelude.{ℕ, arith, ◌≡◌, refl, ap, ◌∙◌, false, some, List, [], ◌∷◌, any}
use harness_ai.Llm.{
  StopReason, Done, StreamEvent, text_delta, thinking_delta, tool_call_delta, finished, empty,
  ErrorKind, ProviderError, retryable, Request,
}
use harness_ai.Retry.{provider}
use harness_ai.Agent.Assembler.{
  Json, Accumulator, Assembled, StreamEnd, eof, failed, receive, assemble, finish_stream,
  new_accumulator,
}
use harness_ai.Agent.Assembler.Reference.{is_finished}
use harness_ai.Gateway.{ArgsJson}
use harness_ai.Gateway.Outbound.{
  to_generation_params, normalize_event, normalize_done, normalize_stop_reason, normalize_usage,
  map_grpc_error, kind_of_code, Read, ReadEnd, read_eof, read_failed, read_stream,
}
use harness_ai.Gateway.Inbound.{
  to_gen_stream_event, to_gen_done, to_gen_stop_reason, to_gen_usage, code_of_kind,
  status_from_error, ProviderEnd, ended, recv_failed, Opening, not_opened, opened, relay,
  status_of_end, serve_opening, serve_generate,
}
use harness_ai.Gateway.RoundTrip.{IsSendable, to_llm_request-to_generation_params}

-- `Adapter.Stream` on the gateway: the request goes out, and the reader is read.
unfoldable pub remote_stream : ArgsJson → (Request → Opening) → Request → Read
unfolding serve_generate read_stream to_generation_params
remote_stream json provide req =
    let answer = serve_generate json provide (some (to_generation_params json req)) in
    read_stream answer.0 answer.1

-- An end, as the assembler tells it.
abbrev pub end_of_read : ReadEnd → StreamEnd
end_of_read read_eof = eof
end_of_read (read_failed e) = failed

abbrev pub end_of_provider : ProviderEnd → StreamEnd
end_of_provider ended = eof
end_of_provider (recv_failed e) = failed

stop-back : (r : StopReason) → normalize_stop_reason (to_gen_stop_reason r) ≡ r
unfolding normalize_stop_reason to_gen_stop_reason
stop-back StopReason.end = refl
stop-back StopReason.max_tokens = refl
stop-back StopReason.tool_use = refl
stop-back StopReason.stop_sequence = refl
stop-back StopReason.content_filter = refl
stop-back StopReason.refusal = refl
stop-back StopReason.context_window_exceeded = refl
stop-back StopReason.pause = refl
stop-back StopReason.other_reason = refl

done-back : (d : Done) → normalize_done (to_gen_done d) ≡ d
unfolding normalize_done to_gen_done normalize_usage to_gen_usage
done-back d = λ i. record d { stop_reason = stop-back d.stop_reason i }

module _ (json : Json) where
  seen : Accumulator → Read → Assembled
  seen a r = receive json a r.events (end_of_read r.end)

  receive-relay :
      (es : List StreamEvent) (end : ProviderEnd) (a : Accumulator)
      → seen a (read_stream (relay es) (status_of_end end))
        ≡ receive json a es (end_of_provider end)
  unfolding seen read_stream relay status_of_end normalize_event to_gen_stream_event receive
  receive-relay [] ended a = refl
  receive-relay [] (recv_failed e) a = refl
  receive-relay (text_delta t ∷ es) end a = receive-relay es end _
  receive-relay (thinking_delta t s ∷ es) end a = receive-relay es end _
  receive-relay (tool_call_delta d ∷ es) end a = receive-relay es end _
  receive-relay (finished d ∷ es) end a = ap (finish_stream json a) (done-back d)
  receive-relay (empty ∷ es) end a = receive-relay es end a

remote-served :
    (json : ArgsJson) (provide : Request → Opening) (req : Request) (o : Opening)
    → provide req ≡ o
    → IsSendable json req
    → remote_stream json provide req ≡ read_stream (serve_opening o).0 (serve_opening o).1
unfolding remote_stream serve_generate
remote-served json provide req o e h =
    ap (λ r. read_stream (serve_opening (provide r)).0 (serve_opening (provide r)).1)
      (to_llm_request-to_generation_params json req h)
    ∙ ap (λ x. read_stream (serve_opening x).0 (serve_opening x).1) e

-- The gateway between the orchestrator and the provider is not seen. What Assemble makes of the stream that the
-- orchestrator reads from the gateway is what it makes of the provider's own stream for that request: the same message,
-- outcome and Done, and an error of the same kind. The request is sendable, and the provider opens the stream.
pub assemble-remote_stream :
    (args : ArgsJson) (json : Json) (provide : Request → Opening) (req : Request)
    (es : List StreamEvent) (end : ProviderEnd)
    → IsSendable args req
    → provide req ≡ opened es end
    → assemble json
        (remote_stream args provide req).events
        (end_of_read (remote_stream args provide req).end)
      ≡ assemble json es (end_of_provider end)
unfolding assemble serve_opening seen
assemble-remote_stream args json provide req es end h e =
    ap (λ (r : Read). receive json new_accumulator r.events (end_of_read r.end))
      (remote-served args provide req (opened es end) e h)
    ∙ receive-relay json es end new_accumulator

kind-retryable :
    (k : ErrorKind) (n : ℕ)
    → retryable (record { kind = kind_of_code (code_of_kind k); retry_after = 0 })
      ≡ retryable (record { kind = k; retry_after = n })
unfolding retryable kind_of_code code_of_kind
kind-retryable ErrorKind.rate_limited n = refl
kind-retryable ErrorKind.invalid_request n = refl
kind-retryable ErrorKind.auth n = refl
kind-retryable ErrorKind.overloaded n = refl
kind-retryable ErrorKind.server n = refl
kind-retryable ErrorKind.timeout n = refl
kind-retryable ErrorKind.unsupported n = refl

-- A stream that fails: in the opening, or behind events of which none ends the generation.
pub data Fails (e : ProviderError) : Opening → Type 0 where
  in_opening : Fails e (not_opened (provider e))
  in_stream :
      (es : List StreamEvent)
      → any is_finished es ≡ false
      → Fails e (opened es (recv_failed (provider e)))

seen_error : ProviderError → ProviderError
seen_error e = record { kind = kind_of_code (code_of_kind e.kind); retry_after = 0 }

relay-failed :
    (es : List StreamEvent) (e : ProviderError)
    → any is_finished es ≡ false
    → (read_stream (relay es) (some (status_from_error (provider e)))).end
      ≡ read_failed (seen_error e)
unfolding seen_error read_stream relay status_from_error map_grpc_error normalize_event
    to_gen_stream_event
relay-failed [] e h = refl
relay-failed (text_delta t ∷ es) e h = relay-failed es e h
relay-failed (thinking_delta t s ∷ es) e h = relay-failed es e h
relay-failed (tool_call_delta d ∷ es) e h = relay-failed es e h
relay-failed (finished d ∷ es) e h = ground arith
relay-failed (empty ∷ es) e h = relay-failed es e h

opening-failed :
    (e : ProviderError) (o : Opening)
    → Fails e o
    → (read_stream (serve_opening o).0 (serve_opening o).1).end ≡ read_failed (seen_error e)
unfolding seen_error read_stream serve_opening status_from_error map_grpc_error
opening-failed e o in_opening = refl
opening-failed e o (in_stream es h) = relay-failed es e h

-- An error crosses the gateway. If the provider fails with a ProviderError, in the opening of the stream or
-- before its Done, the orchestrator's reader ends with an error that is retryable exactly if that one is.
pub remote_stream-failed :
    (json : ArgsJson) (provide : Request → Opening) (req : Request) (o : Opening)
    (e : ProviderError)
    → IsSendable json req
    → provide req ≡ o
    → Fails e o
    → (seen : ProviderError) × ((remote_stream json provide req).end ≡ read_failed seen)
      × (retryable seen ≡ retryable e)
unfolding seen_error
remote_stream-failed json provide req o e h f g = (
  seen_error e,
  ap (λ (r : Read). r.end) (remote-served json provide req o f h) ∙ opening-failed e o g,
  kind-retryable e.kind e.retry_after,
)
