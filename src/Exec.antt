-- ===== src/Exec.antt =====
-- A call that may raise (checkmarx/errors.py, the `ValueError`s of the services, `FallbackDetected` of
-- ingestion.py, and `internal` for any other exception). What was
-- written before a raise stays written in the session, so the state comes back beside the error.
pub mod Contracts
use v_cx_credit_guard.Prelude.{
  ◌≡◌, refl, String, Bool, true, false, Option, none, some, List, [], ◌∷◌, if◌then◌else◌,
}

-- The exception classes under `CheckmarxError`.
pub data Failure : Type 0 where
  plain api_key auth permission not_found rate_limit unavailable response not_configured : Failure

pub data Error : Type 0 where
  checkmarx : Failure → String → Error
  period_error limit_error value_error fallback_detected internal : String → Error

-- `str(exc)`
unfoldable pub message : Error → String
message (checkmarx k s) = s
message (period_error s) = s
message (limit_error s) = s
message (value_error s) = s
message (fallback_detected s) = s
message (internal s) = s

pub data Result (A : Type 0) : Type 0 where
  ok : A → Result A
  err : Error → Result A

abbrev pub Exec : Type 0 → Type 0 → Type 0
Exec S A = S → Result A × S

module _ {S A : Type 0} where
  unfoldable pub pure : A → Exec S A
  pure a s = (ok a, s)

  unfoldable pub raise : Error → Exec S A
  raise e s = (err e, s)

  unfoldable pub gets : (S → A) → Exec S A
  gets f s = (ok (f s), s)

unfoldable pub modify : {S : Type 0} → (S → S) → Exec S (Unit {0})
modify f s = (ok tt, f s)

infixl 5 ◌>>=◌ ◌>>◌
-- Opening this opens `pure`, `raise`, `gets` and `modify` too.
unfoldable pub ◌>>=◌ : {S A B : Type 0} → Exec S A → (A → Exec S B) → Exec S B
unfolding pure raise gets modify
◌>>=◌ m f s = let (r, s') = m s in elim r [ ok a ↦ f a s' | err e ↦ (err e, s') ]

abbrev pub ◌>>◌ : {S B : Type 0} → Exec S (Unit {0}) → Exec S B → Exec S B
m >> k = m >>= λ _. k

-- How a `try` whose `except CheckmarxError as exc` goes on below it has ended.
pub data Attempt (A : Type 0) : Type 0 where
  returned : A → Attempt A
  failed : Failure → String → Attempt A

-- `try: m except CheckmarxError`; every other exception passes through.
unfoldable pub attempt : {S A : Type 0} → Exec S A → Exec S (Attempt A)
attempt m s =
    let (r, s') = m s in
    elim r [
      | ok a ↦ (ok (returned a), s')
      | err e ↦ elim e [
        | checkmarx k text ↦ (ok (failed k text), s')
        | period_error text ↦ (err (period_error text), s')
        | limit_error text ↦ (err (limit_error text), s')
        | value_error text ↦ (err (value_error text), s')
        | fallback_detected text ↦ (err (fallback_detected text), s')
        | internal text ↦ (err (internal text), s')
      ]
    ]

-- `try: m except Exception as exc`: every failure, with `str(exc)`.
unfoldable pub rescue : {S A : Type 0} → Exec S A → (String → Exec S A) → Exec S A
unfolding message
rescue m handler s =
    let (r, s') = m s in elim r [ ok a ↦ (ok a, s') | err e ↦ handler (message e) s' ]

-- `try: m except CheckmarxError as exc`, with `str(exc)`.
unfoldable pub rescue_checkmarx : {S A : Type 0} → Exec S A → (String → Exec S A) → Exec S A
unfolding attempt
rescue_checkmarx m handler = do
  r ← attempt m
  elim r [ returned a ↦ pure a | failed k text ↦ handler text ]
