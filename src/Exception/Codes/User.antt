-- ===== src/Exception/Codes/User.antt =====
-- The user errors of exception/error_code.go.
use social_network_micro_ser.Exception.Code.{ErrorCode}

abbrev pub given_name_required : ErrorCode
given_name_required = record {
  code = 2000;
  message = "Given name is required";
  error = "GIVEN_NAME_REQUIRED";
  status = 400;
}

abbrev pub family_name_required : ErrorCode
family_name_required = record {
  code = 2001;
  message = "Family name is required";
  error = "FAMILY_NAME_REQUIRED";
  status = 400;
}

abbrev pub birthdate_required : ErrorCode
birthdate_required = record {
  code = 2002;
  message = "Birth date is required";
  error = "BIRTHDATE_REQUIRED";
  status = 400;
}

abbrev pub age_must_be_at_least16 : ErrorCode
age_must_be_at_least16 = record {
  code = 2003;
  message = "This user is under age";
  error = "AGE_MUST_BE_AT_LEAST_16";
  status = 400;
}

abbrev pub invalid_given_name_length : ErrorCode
invalid_given_name_length = record {
  code = 2004;
  message = "Given name is too long";
  error = "INVALID_GIVEN_NAME_LENGTH";
  status = 400;
}

abbrev pub invalid_family_name_length : ErrorCode
invalid_family_name_length = record {
  code = 2005;
  message = "Family name is too long";
  error = "INVALID_FAMILY_NAME_LENGTH";
  status = 400;
}

abbrev pub less_than30_days_since_last_birthdate_change : ErrorCode
less_than30_days_since_last_birthdate_change = record {
  code = 2006;
  message = "Less than 30 days since last date of birth change";
  error = "LESS_THAN_30_DAYS_SINCE_LAST_BIRTHDATE_CHANGE";
  status = 400;
}

abbrev pub less_than30_days_since_last_name_change : ErrorCode
less_than30_days_since_last_name_change = record {
  code = 2007;
  message = "Less than 30 days since last name change";
  error = "LESS_THAN_30_DAYS_SINCE_LAST_NAME_CHANGE";
  status = 400;
}

abbrev pub less_than30_days_since_last_username_change : ErrorCode
less_than30_days_since_last_username_change = record {
  code = 2008;
  message = "Less than 30 days since last username change";
  error = "LESS_THAN_30_DAYS_SINCE_LAST_USERNAME_CHANGE";
  status = 400;
}

abbrev pub email_not_verified : ErrorCode
email_not_verified = record {
  code = 2009;
  message = "Email is not verified";
  error = "EMAIL_NOT_VERIFIED";
  status = 401;
}

abbrev pub user_not_found : ErrorCode
user_not_found = record {
  code = 2010;
  message = "User not found";
  error = "USER_NOT_FOUND";
  status = 404;
}

abbrev pub invalid_username : ErrorCode
invalid_username = record {
  code = 2010;
  message = "Invalid username";
  error = "INVALID_USERNAME";
  status = 400;
}

abbrev pub username_required : ErrorCode
username_required = record {
  code = 2011;
  message = "Username is required";
  error = "USERNAME_REQUIRED";
  status = 400;
}

abbrev pub username_already_exists : ErrorCode
username_already_exists = record {
  code = 2012;
  message = "Username already exists";
  error = "USERNAME_ALREADY_EXISTS";
  status = 400;
}

abbrev pub profile_picture_required : ErrorCode
profile_picture_required = record {
  code = 2013;
  message = "Profile picture is required";
  error = "PROFILE_PICTURE_REQUIRED";
  status = 400;
}

abbrev pub nothing_changed : ErrorCode
nothing_changed = record {
  code = 2014;
  message = "Nothing changed";
  error = "NOTHING_CHANGED";
  status = 400;
}

abbrev pub update_bio_failed : ErrorCode
update_bio_failed = record {
  code = 2020;
  message = "Update bio failed";
  error = "UPDATE_BIO_FAILED";
  status = 400;
}

abbrev pub update_birthdate_failed : ErrorCode
update_birthdate_failed = record {
  code = 2021;
  message = "Update birthdate failed";
  error = "UPDATE_BIRTHDATE_FAILED";
  status = 400;
}

abbrev pub update_name_failed : ErrorCode
update_name_failed = record {
  code = 2022;
  message = "Update name failed";
  error = "UPDATE_NAME_FAILED";
  status = 400;
}

abbrev pub update_username_failed : ErrorCode
update_username_failed = record {
  code = 2023;
  message = "Update username failed";
  error = "UPDATE_USERNAME_FAILED";
  status = 400;
}

abbrev pub update_profile_picture_failed : ErrorCode
update_profile_picture_failed = record {
  code = 2024;
  message = "Update profile picture failed";
  error = "UPDATE_PROFILE_PICTURE_FAILED";
  status = 400;
}

abbrev pub get_user_profile_failed : ErrorCode
get_user_profile_failed = record {
  code = 2025;
  message = "Get user profile failed";
  error = "GET_USER_PROFILE_FAILED";
  status = 400;
}
