-- ===== src/Dispatcher/Outcomes.antt =====
-- What the result of an operation of AviUtl2MCP.Bridge/src/request_dispatcher.cpp says, told by what its
-- handler has done.
use aviutl2mcp.Common.{
  ◌≡◌, refl, sym, subst, inl, inr, Bool, true, false, not, ◌&&◌, none, some, Option, if◌then◌else◌,
  Bytes, is_empty, text, Bool-cases, Exception, err, arith, Result,
}
use aviutl2mcp.Dispatcher.{OperationRequest, ErrorReply}
use aviutl2mcp.Dispatcher.Execution.{
  OperationResult, ResponseReply, Context, is_cancelled, internal_error, operation_cancelled,
  catch_result, require_outcome, settle, create_response,
}
use aviutl2mcp.Dispatcher.Conclusion.{IsResult, its_own, stand_in}
use aviutl2mcp.Platform.{Platform}

-- The request was cancelled, and its handler has not reached the commit point.
abbrev stopped_early : Context → Bool
stopped_early context = is_cancelled context && not context.has_reached_commit_point

-- What is known of the project where the operation has failed.
abbrev pub known_outcome : Context → Bytes
known_outcome context =
    if context.has_reached_commit_point then text "unknown" else text "unchanged"

module _ (platform : Platform) (dump : ErrorReply → Bytes) (print : ResponseReply → Result Bytes)
    (request : OperationRequest) where
  -- Why an operation fails, whatever its handler says.
  pub data IsFailure (run : Context × Option OperationResult) : Type 0 where
    raises : run.1 ≡ none → IsFailure run
    stops : stopped_early run.0 ≡ true → IsFailure run
    omits :
        (returned : OperationResult)
        → run.1 ≡ some returned
        → is_empty returned.outcome ≡ true
        → IsFailure run
    unprintable :
        (thrown : Exception)
        → print (create_response request (settle run.0 run.1) run.0.revisions) ≡ err thrown
        → IsFailure run

  -- The result is the one that the handler has returned, or a failure with what is known of the project.
  pub data IsMeant (run : Context × Option OperationResult) (result : OperationResult)
      : Type 0 where
    own :
        (returned : OperationResult)
        → run.1 ≡ some returned
        → stopped_early run.0 ≡ false
        → is_empty returned.outcome ≡ false
        → result ≡ returned
        → IsMeant run result
    failure :
        IsFailure run
        → result.is_ok ≡ false
        → result.outcome ≡ known_outcome run.0
        → IsMeant run result

  settle-IsMeant :
      (context : Context) (returned : Option OperationResult)
      → IsMeant (context, returned) (settle context returned)
  unfolding settle catch_result require_outcome internal_error operation_cancelled text
  settle-IsMeant context none = elim (Bool-cases context.has_reached_commit_point) [
    | inl reached ↦ failure (raises refl) (rw reached refl) (rw reached refl)
    | inr before ↦ failure (raises refl) (rw before refl) (rw before refl)
  ]
  settle-IsMeant context (some result) = elim (Bool-cases (stopped_early context)) [
    | inl stopped ↦ failure (stops stopped) (ground (arith, stopped)) (ground (arith, stopped))
    | inr goes_on ↦ elim (Bool-cases (is_empty result.outcome)) [
      | inl empty ↦
          failure (omits result refl empty) (ground (arith, goes_on, empty))
            (ground (arith, goes_on, empty))
      | inr told ↦ own result refl goes_on told (ground (arith, goes_on, told))
    ]
  ]

  pub result-IsMeant :
      (run : Context × Option OperationResult) (result : OperationResult)
      → IsResult platform dump print request run result
      → IsMeant run result
  unfolding internal_error
  result-IsMeant run result (its_own same) =
      subst (IsMeant run) (sym same) (settle-IsMeant run.0 run.1)
  result-IsMeant run result (stand_in thrown fails same) =
      failure (unprintable thrown fails) (rw same refl) (rw same refl)
