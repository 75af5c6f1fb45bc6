-- ===== src/Exception/Codes/Account.antt =====
-- The account errors of exception/error_code.go.
use social_network_micro_ser.Exception.Code.{ErrorCode}

abbrev pub account_not_found : ErrorCode
account_not_found = record {
  code = 1000;
  message = "Account not found";
  error = "ACCOUNT_NOT_FOUND";
  status = 404;
}

abbrev pub account_not_verified : ErrorCode
account_not_verified = record {
  code = 1001;
  message = "Account not verified";
  error = "ACCOUNT_NOT_VERIZED";
  status = 401;
}

abbrev pub account_locked : ErrorCode
account_locked = record {
  code = 1002;
  message = "Account locked";
  error = "ACCOUNT_LOCKED";
  status = 423;
}

abbrev pub authentication_failed : ErrorCode
authentication_failed = record {
  code = 1003;
  message = "Authentication failed";
  error = "AUTHENTICATION_FAILED";
  status = 401;
}

abbrev pub invalid_password : ErrorCode
invalid_password = record {
  code = 1004;
  message = "Invalid password";
  error = "INVALID_PASSWORD";
  status = 400;
}

abbrev pub invalid_email : ErrorCode
invalid_email = record {
  code = 1005;
  message = "Invalid email";
  error = "INVALID_EMAIL";
  status = 400;
}

abbrev pub email_required : ErrorCode
email_required = record {
  code = 1006;
  message = "Email is required";
  error = "EMAIL_REQUIRED";
  status = 400;
}

abbrev pub password_required : ErrorCode
password_required = record {
  code = 1007;
  message = "Password is required";
  error = "PASSWORD_REQUIRED";
  status = 400;
}

abbrev pub verification_code_not_found : ErrorCode
verification_code_not_found = record {
  code = 1008;
  message = "Verification code not found";
  error = "VERIFICATION_CODE_NOT_FOUND";
  status = 404;
}

abbrev pub verification_code_not_matched_or_expired : ErrorCode
verification_code_not_matched_or_expired = record {
  code = 1009;
  message = "Verification code not matched or expired";
  error = "VERIFICATION_CODE_NOT_MATCHED_OR_EXPIRED";
  status = 400;
}

abbrev pub refresh_token_required : ErrorCode
refresh_token_required = record {
  code = 1010;
  message = "Refresh token is required";
  error = "REFRESH_TOKEN_REQUIRED";
  status = 400;
}

abbrev pub invalid_or_expired_refresh_token : ErrorCode
invalid_or_expired_refresh_token = record {
  code = 1011;
  message = "Invalid or expired refresh token";
  error = "INVALID_OR_EXPIRED_REFRESH_TOKEN";
  status = 400;
}

abbrev pub account_already_exists : ErrorCode
account_already_exists = record {
  code = 1012;
  message = "Account already exists";
  error = "ACCOUNT_ALREADY_EXISTS";
  status = 409;
}

abbrev pub invalid_token : ErrorCode
invalid_token = record {
  code = 1013;
  message = "Invalid token";
  error = "INVALID_TOKEN";
  status = 400;
}

abbrev pub expired_token : ErrorCode
expired_token = record {
  code = 1014;
  message = "Expired token";
  error = "EXPIRED_TOKEN";
  status = 400;
}

abbrev pub verification_code_required : ErrorCode
verification_code_required = record {
  code = 1015;
  message = "Verification code is required";
  error = "VERIFICATION_CODE_REQUIRED";
  status = 400;
}

abbrev pub account_verified : ErrorCode
account_verified = record {
  code = 1016;
  message = "Account verified";
  error = "ACCOUNT_VERIFIED";
  status = 409;
}

abbrev pub invalid_captcha : ErrorCode
invalid_captcha = record {
  code = 1040;
  message = "Invalid or expired CAPTCHA";
  error = "INVALID_CAPTCHA";
  status = 400;
}

abbrev pub login_failed : ErrorCode
login_failed = record {
  code = 1020;
  message = "Login failed";
  error = "LOGIN_FAILED";
  status = 400;
}

abbrev pub refresh_failed : ErrorCode
refresh_failed = record {
  code = 1021;
  message = "Token refresh failed";
  error = "REFRESH_FAILED";
  status = 400;
}

abbrev pub forgot_password_failed : ErrorCode
forgot_password_failed = record {
  code = 1022;
  message = "Forgot password operation failed";
  error = "FORGOT_PASSWORD_FAILED";
  status = 400;
}

abbrev pub reset_password_failed : ErrorCode
reset_password_failed = record {
  code = 1023;
  message = "Reset password failed";
  error = "RESET_PASSWORD_FAILED";
  status = 400;
}

abbrev pub change_password_failed : ErrorCode
change_password_failed = record {
  code = 1024;
  message = "Change password failed";
  error = "CHANGE_PASSWORD_FAILED";
  status = 400;
}

abbrev pub register_failed : ErrorCode
register_failed = record {
  code = 1025;
  message = "Registration failed";
  error = "REGISTER_FAILED";
  status = 400;
}

abbrev pub verify_failed : ErrorCode
verify_failed = record {
  code = 1026;
  message = "Verification failed";
  error = "VERIFY_FAILED";
  status = 400;
}

abbrev pub resend_email_failed : ErrorCode
resend_email_failed = record {
  code = 1027;
  message = "Resend email failed";
  error = "RESEND_EMAIL_FAILED";
  status = 400;
}

abbrev pub too_many_email_requests : ErrorCode
too_many_email_requests = record {
  code = 1028;
  message = "Too many email requests from this IP";
  error = "TOO_MANY_EMAIL_REQUESTS";
  status = 429;
}
