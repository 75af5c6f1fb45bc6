-- ===== src/Exception.antt =====
-- exception/error_code.go: the declared codes, the lookup of an error's text, and the response
-- that an error gets. An error is an `AppException` or a text of its own.
pub mod Code
pub mod Codes
pub mod Declared
pub mod Table
pub mod Coverage
use social_network_micro_ser.Prelude.{
  ℕ, String, Text, codes, text_eq, Bool, true, false, ◌&&◌, List, [], ◌∷◌, Option, none, some, zero,
  suc, if◌then◌else◌,
}
use Code.{ErrorCode}
use Codes.{authentication_failed, account_locked, unknown_error}
use Table.{error_string_map}

pub data Err : Type 0 where
  app : ErrorCode → Err
  message : Text → Err

-- A read of a Go map that is built once.
pub find : List (String × ErrorCode) → Text → Option ErrorCode
find [] msg = none
find ((k, e) ∷ rest) msg = if text_eq (codes k) msg then some e else find rest msg

-- `len(msg) >= len(p) && msg[:len(p)] == p`
unfoldable pub has_prefix : Text → Text → Bool
has_prefix [] msg = true
has_prefix (p ∷ ps) [] = false
has_prefix (p ∷ ps) (c ∷ cs) = text_eq (p ∷ []) (c ∷ []) && has_prefix ps cs

map_prefix : Text → ErrorCode × Bool
unfolding has_prefix
map_prefix msg =
    if has_prefix (codes "AUTHENTICATION_FAILED") msg
    then (authentication_failed, true)
    else if has_prefix (codes "ACCOUNT_LOCKED") msg
    then (account_locked, true)
    else (unknown_error, false)

found_or_prefix : Text → Option ErrorCode → ErrorCode × Bool
found_or_prefix msg (some e) = (e, true)
found_or_prefix msg none = map_prefix msg

unfoldable pub map_error : Text → ErrorCode × Bool
unfolding find found_or_prefix map_prefix
map_error msg = found_or_prefix msg (find error_string_map msg)

-- `nil` is `none`.
unfoldable pub map_app_error : Option Err → ErrorCode × Bool
unfolding map_error
map_app_error none = (unknown_error, false)
map_app_error (some (app e)) = (e, true)
map_app_error (some (message msg)) = map_error msg

-- The code whose number, message and status the response carries.
unfoldable pub send_app_error : Err → ErrorCode
unfolding map_error
send_app_error (app e) = e
send_app_error (message msg) = (map_error msg).0
