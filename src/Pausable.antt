-- ===== src/Pausable.antt =====
-- soroban_pausable_core/src/lib.rs: the errors of the trait `Pausable`, which the contracts implement.
pub data PausableError : Type 0 where
  paused not_authorized : PausableError

-- The implementations hand any refusal of the admin gate on as `NotAuthorized`.
abbrev pub as_pausable : {E : Type 0} → E → PausableError
as_pausable e = PausableError.not_authorized
