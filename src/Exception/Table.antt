-- ===== src/Exception/Table.antt =====
-- `errorStringMap` of exception/error_code.go, in the order of the source.
use social_network_micro_ser.Prelude.{String, List, [], ◌∷◌, ◌++◌}
use social_network_micro_ser.Exception.Code.{ErrorCode}
use social_network_micro_ser.Exception.Codes.{
  accept_request_failed, account_already_exists, account_locked, account_not_found,
  account_not_verified, account_verified, add_friend_request_received_limit_reached,
  add_friend_request_sent_limit_reached, age_must_be_at_least16, already_in_call,
  authentication_failed, birthdate_required, block_failed, block_limit_reached, block_not_found,
  call_not_found, can_not_block_yourself, can_not_delete_message, can_not_edit_call,
  can_not_edit_file_message, can_not_edit_message, can_not_make_self_request,
  can_not_reply_replied_comment, change_password_failed, chat_id_and_user_id_both_empty,
  chat_not_found, comment_content_and_attach_file_both_empty, comment_content_unchanged,
  comment_failed, comment_not_found, create_post_failed, delete_comment_failed, delete_file_failed,
  delete_message_failed, delete_post_failed, delete_request_failed, deleted_post,
  edit_message_failed, email_not_verified, email_required, expired_token, family_name_required,
  file_message_required, file_not_found, file_required, forgot_password_failed, friend_not_found,
  get_blocked_users_failed, get_comments_failed, get_friends_failed, get_requests_failed,
  get_user_profile_failed, gif_url_required, given_name_required, has_been_blocked, has_blocked,
  invalid_comment_content_length, invalid_delete_attachment, invalid_email,
  invalid_family_name_length, invalid_file, invalid_file_size, invalid_given_name_length,
  invalid_input, invalid_message_content_length, invalid_number_of_post_attachments,
  invalid_or_expired_refresh_token, invalid_password, invalid_post_content_length,
  invalid_post_privacy, invalid_request_method, invalid_token, invalid_username, invalid_uuid,
  invalid_websocket_channel, less_than30_days_since_last_birthdate_change,
  less_than30_days_since_last_name_change, less_than30_days_since_last_username_change,
  like_comment_failed, like_post_failed, liked_comment, liked_post, list_contains_invalid_file,
  load_file_failed, login_failed, message_not_found, message_username_required, no_resource_found,
  not_block, not_liked_comment, not_liked_post, not_ready_for_call, nothing_changed,
  only_letter_accepted, only_public_post_can_be_shared, original_comment_id_required,
  password_required, post_content_and_attach_files_both_empty, post_content_unchanged,
  post_id_required, post_not_found, privacy_unchanged, profile_picture_required, refresh_failed,
  refresh_token_required, register_failed, reply_comment_failed, request_not_found,
  required_image_file, required_image_or_video_file, resend_email_failed, reset_password_failed,
  search_query_required, send_file_failed, send_friend_request_failed, send_gif_failed,
  send_message_failed, send_voice_failed, share_post_failed, storage_initialization_error,
  target_already_in_call, text_message_content_required, text_message_content_unchanged,
  too_many_email_requests, too_many_requests, unauthenticated, unauthorized, unblock_failed,
  unfriend_failed, unknown_error, unlike_comment_failed, unlike_post_failed, update_bio_failed,
  update_birthdate_failed, update_name_failed, update_post_failed, update_privacy_failed,
  update_profile_picture_failed, update_username_failed, upload_file_failed, user_not_found,
  username_already_exists, username_required, verification_code_not_found,
  verification_code_not_matched_or_expired, verification_code_required, verify_failed,
}

abbrev account_entries : List (String × ErrorCode)
account_entries =
    ("ACCOUNT_NOT_FOUND", account_not_found)
    ∷ ("ACCOUNT_NOT_VERIFIED", account_not_verified)
    ∷ ("ACCOUNT_NOT_VERIZED", account_not_verified)
    ∷ ("ACCOUNT_LOCKED", account_locked)
    ∷ ("AUTHENTICATION_FAILED", authentication_failed)
    ∷ ("INVALID_PASSWORD", invalid_password)
    ∷ ("WEAK_PASSWORD_MUST_BE_8_CHARS_UPPERCASE_NUMBER", invalid_password)
    ∷ ("PASSWORD_NOT_STRONG_ENOUGH", invalid_password)
    ∷ ("INVALID_EMAIL", invalid_email)
    ∷ ("EMAIL_REQUIRED", email_required)
    ∷ ("PASSWORD_REQUIRED", password_required)
    ∷ ("VERIFICATION_CODE_NOT_FOUND", verification_code_not_found)
    ∷ ("VERIFICATION_CODE_NOT_MATCHED_OR_EXPIRED", verification_code_not_matched_or_expired)
    ∷ ("REFRESH_TOKEN_REQUIRED", refresh_token_required)
    ∷ ("INVALID_OR_EXPIRED_REFRESH_TOKEN", invalid_or_expired_refresh_token)
    ∷ ("ACCOUNT_ALREADY_EXISTS", account_already_exists)
    ∷ ("INVALID_TOKEN", invalid_token)
    ∷ ("EXPIRED_TOKEN", expired_token)
    ∷ ("VERIFICATION_CODE_REQUIRED", verification_code_required)
    ∷ ("ACCOUNT_VERIFIED", account_verified)
    ∷ ("ACCOUNT_ALREADY_VERIFIED", account_verified)
    ∷ ("LOGIN_FAILED", login_failed)
    ∷ ("REFRESH_FAILED", refresh_failed)
    ∷ ("FORGOT_PASSWORD_FAILED", forgot_password_failed)
    ∷ ("RESET_PASSWORD_FAILED", reset_password_failed)
    ∷ ("CHANGE_PASSWORD_FAILED", change_password_failed)
    ∷ ("REGISTER_FAILED", register_failed)
    ∷ ("VERIFY_FAILED", verify_failed)
    ∷ ("RESEND_EMAIL_FAILED", resend_email_failed)
    ∷ ("TOO_MANY_EMAIL_REQUESTS", too_many_email_requests)
    ∷ []

abbrev user_entries : List (String × ErrorCode)
user_entries =
    ("GIVEN_NAME_REQUIRED", given_name_required)
    ∷ ("FAMILY_NAME_REQUIRED", family_name_required)
    ∷ ("BIRTHDATE_REQUIRED", birthdate_required)
    ∷ ("AGE_MUST_BE_AT_LEAST_16", age_must_be_at_least16)
    ∷ ("INVALID_GIVEN_NAME_LENGTH", invalid_given_name_length)
    ∷ ("INVALID_FAMILY_NAME_LENGTH", invalid_family_name_length)
    ∷ (
      "LESS_THAN_30_DAYS_SINCE_LAST_BIRTHDATE_CHANGE", less_than30_days_since_last_birthdate_change,
    )
    ∷ ("LESS_THAN_30_DAYS_SINCE_LAST_NAME_CHANGE", less_than30_days_since_last_name_change)
    ∷ ("LESS_THAN_30_DAYS_SINCE_LAST_USERNAME_CHANGE", less_than30_days_since_last_username_change)
    ∷ ("EMAIL_NOT_VERIFIED", email_not_verified)
    ∷ ("USER_NOT_FOUND", user_not_found)
    ∷ ("INVALID_USERNAME", invalid_username)
    ∷ ("USERNAME_REQUIRED", username_required)
    ∷ ("USERNAME_ALREADY_EXISTS", username_already_exists)
    ∷ ("PROFILE_PICTURE_REQUIRED", profile_picture_required)
    ∷ ("NOTHING_CHANGED", nothing_changed)
    ∷ ("UPDATE_BIO_FAILED", update_bio_failed)
    ∷ ("UPDATE_BIRTHDATE_FAILED", update_birthdate_failed)
    ∷ ("UPDATE_NAME_FAILED", update_name_failed)
    ∷ ("UPDATE_USERNAME_FAILED", update_username_failed)
    ∷ ("UPDATE_PROFILE_PICTURE_FAILED", update_profile_picture_failed)
    ∷ ("GET_USER_PROFILE_FAILED", get_user_profile_failed)
    ∷ []

abbrev storage_entries : List (String × ErrorCode)
storage_entries =
    ("STORAGE_INITIALIZATION_ERROR", storage_initialization_error)
    ∷ ("FILE_REQUIRED", file_required)
    ∷ ("INVALID_FILE", invalid_file)
    ∷ ("UPLOAD_FILE_FAILED", upload_file_failed)
    ∷ ("FILE_NOT_FOUND", file_not_found)
    ∷ ("DELETE_FILE_FAILED", delete_file_failed)
    ∷ ("LOAD_FILE_FAILED", load_file_failed)
    ∷ ("REQUIRED_IMAGE_FILE", required_image_file)
    ∷ ("INVALID_FILE_SIZE", invalid_file_size)
    ∷ ("LIST_CONTAINS_INVALID_FILE", list_contains_invalid_file)
    ∷ ("REQUIRED_IMAGE_OR_VIDEO_FILE", required_image_or_video_file)
    ∷ []

abbrev friend_entries : List (String × ErrorCode)
friend_entries =
    ("CAN_NOT_MAKE_SELF_REQUEST", can_not_make_self_request)
    ∷ ("SENT_ADD_FRIEND_REQUEST_FAILED", send_friend_request_failed)
    ∷ ("SEND_FRIEND_REQUEST_FAILED", send_friend_request_failed)
    ∷ ("ADD_FRIEND_REQUEST_SENT_LIMIT_REACHED", add_friend_request_sent_limit_reached)
    ∷ ("ADD_FRIEND_REQUEST_RECEIVED_LIMIT_REACHED", add_friend_request_received_limit_reached)
    ∷ ("REQUEST_NOT_FOUND", request_not_found)
    ∷ ("ACCEPT_REQUEST_FAILED", accept_request_failed)
    ∷ ("HAS_BLOCKED", has_blocked)
    ∷ ("HAS_BEEN_BLOCKED", has_been_blocked)
    ∷ ("NOT_BLOCK", not_block)
    ∷ ("BLOCK_LIMIT_REACHED", block_limit_reached)
    ∷ ("CAN_NOT_BLOCK_YOURSELF", can_not_block_yourself)
    ∷ ("BLOCK_NOT_FOUND", block_not_found)
    ∷ ("FRIEND_NOT_FOUND", friend_not_found)
    ∷ ("DELETE_REQUEST_FAILED", delete_request_failed)
    ∷ ("GET_REQUESTS_FAILED", get_requests_failed)
    ∷ ("UNFRIEND_FAILED", unfriend_failed)
    ∷ ("BLOCK_FAILED", block_failed)
    ∷ ("UNBLOCK_FAILED", unblock_failed)
    ∷ ("GET_BLOCKED_USERS_FAILED", get_blocked_users_failed)
    ∷ ("GET_FRIENDS_FAILED", get_friends_failed)
    ∷ []

abbrev post_entries : List (String × ErrorCode)
post_entries =
    ("POST_CONTENT_AND_ATTACH_FILES_BOTH_EMPTY", post_content_and_attach_files_both_empty)
    ∷ ("INVALID_POST_CONTENT_LENGTH", invalid_post_content_length)
    ∷ ("INVALID_NUMBER_OF_POST_ATTACHMENTS", invalid_number_of_post_attachments)
    ∷ ("POST_NOT_FOUND", post_not_found)
    ∷ ("ONLY_PUBLIC_POST_CAN_BE_SHARED", only_public_post_can_be_shared)
    ∷ ("PRIVACY_UNCHANGED", privacy_unchanged)
    ∷ ("INVALID_DELETE_ATTACHMENT", invalid_delete_attachment)
    ∷ ("POST_CONTENT_UNCHANGED", post_content_unchanged)
    ∷ ("LIKED_POST", liked_post)
    ∷ ("NOT_LIKED_POST", not_liked_post)
    ∷ ("DELETED_POST", deleted_post)
    ∷ ("INVALID_POST_PRIVACY", invalid_post_privacy)
    ∷ ("CREATE_POST_FAILED", create_post_failed)
    ∷ ("SHARE_POST_FAILED", share_post_failed)
    ∷ ("LIKE_POST_FAILED", like_post_failed)
    ∷ ("UNLIKE_POST_FAILED", unlike_post_failed)
    ∷ ("UPDATE_PRIVACY_FAILED", update_privacy_failed)
    ∷ ("UPDATE_POST_FAILED", update_post_failed)
    ∷ ("DELETE_POST_FAILED", delete_post_failed)
    ∷ []

abbrev comment_entries : List (String × ErrorCode)
comment_entries =
    ("COMMENT_NOT_FOUND", comment_not_found)
    ∷ ("COMMENT_CONTENT_AND_ATTACH_FILE_BOTH_EMPTY", comment_content_and_attach_file_both_empty)
    ∷ ("INVALID_COMMENT_CONTENT_LENGTH", invalid_comment_content_length)
    ∷ ("POST_ID_REQUIRED", post_id_required)
    ∷ ("ORIGINAL_COMMENT_ID_REQUIRED", original_comment_id_required)
    ∷ ("LIKED_COMMENT", liked_comment)
    ∷ ("NOT_LIKED_COMMENT", not_liked_comment)
    ∷ ("CAN_NOT_REPLY_REPLIED_COMMENT", can_not_reply_replied_comment)
    ∷ ("COMMENT_CONTENT_UNCHANGED", comment_content_unchanged)
    ∷ ("COMMENT_FAILED", comment_failed)
    ∷ ("REPLY_COMMENT_FAILED", reply_comment_failed)
    ∷ ("LIKE_COMMENT_FAILED", like_comment_failed)
    ∷ ("UNLIKE_COMMENT_FAILED", unlike_comment_failed)
    ∷ ("GET_COMMENTS_FAILED", get_comments_failed)
    ∷ ("DELETE_COMMENT_FAILED", delete_comment_failed)
    ∷ []

abbrev chat_entries : List (String × ErrorCode)
chat_entries =
    ("CHAT_NOT_FOUND", chat_not_found)
    ∷ ("MESSAGE_USERNAME_REQUIRED", message_username_required)
    ∷ ("INVALID_MESSAGE_CONTENT_LENGTH", invalid_message_content_length)
    ∷ ("CHAT_ID_AND_USER_ID_BOTH_EMPTY", chat_id_and_user_id_both_empty)
    ∷ ("MESSAGE_NOT_FOUND", message_not_found)
    ∷ ("CAN_NOT_DELETE_MESSAGE", can_not_delete_message)
    ∷ ("TEXT_MESSAGE_CONTENT_REQUIRED", text_message_content_required)
    ∷ ("TEXT_MESSAGE_CONTENT_UNCHANGED", text_message_content_unchanged)
    ∷ ("CAN_NOT_EDIT_FILE_MESSAGE", can_not_edit_file_message)
    ∷ ("CAN_NOT_EDIT_MESSAGE", can_not_edit_message)
    ∷ ("FILE_MESSAGE_REQUIRED", file_message_required)
    ∷ ("ALREADY_IN_CALL", already_in_call)
    ∷ ("TARGET_ALREADY_IN_IN_CALL", target_already_in_call)
    ∷ ("CALL_NOT_FOUND", call_not_found)
    ∷ ("NOT_READY_FOR_CALL", not_ready_for_call)
    ∷ ("CAN_NOT_EDIT_CALL", can_not_edit_call)
    ∷ ("GIF_URL_REQUIRED", gif_url_required)
    ∷ ("BLOCKED", has_blocked)
    ∷ ("CAN_NOT_EDIT_FILE_OR_CALL", can_not_edit_file_message)
    ∷ ("SEND_MESSAGE_FAILED", send_message_failed)
    ∷ ("SEND_GIF_FAILED", send_gif_failed)
    ∷ ("SEND_FILE_FAILED", send_file_failed)
    ∷ ("SEND_VOICE_FAILED", send_voice_failed)
    ∷ ("EDIT_MESSAGE_FAILED", edit_message_failed)
    ∷ ("DELETE_MESSAGE_FAILED", delete_message_failed)
    ∷ []

abbrev general_entries : List (String × ErrorCode)
general_entries =
    ("INVALID_REQUEST_METHOD", invalid_request_method)
    ∷ ("SEARCH_QUERY_REQUIRED", search_query_required)
    ∷ ("TOO_MANY_REQUESTS", too_many_requests)
    ∷ ("INVALID_WEBSOCKET_CHANNEL", invalid_websocket_channel)
    ∷ ("ONLY_LETTER_ACCEPTED", only_letter_accepted)
    ∷ ("UNAUTHORIZED", unauthorized)
    ∷ ("INVALID_INPUT", invalid_input)
    ∷ ("INVALID_REQUEST_PAYLOAD", invalid_input)
    ∷ ("INVALID_BIRTHDATE_FORMAT_MUST_BE_YYYY_MM_DD", invalid_input)
    ∷ ("INVALID_CODE_FORMAT", invalid_input)
    ∷ ("INVALID_REQUEST_BODY", invalid_input)
    ∷ ("INVALID_UUID", invalid_uuid)
    ∷ ("UNAUTHENTICATED", unauthenticated)
    ∷ ("NO_RESOURCE_FOUND", no_resource_found)
    ∷ ("UNKNOWN_ERROR", unknown_error)
    ∷ []

abbrev pub error_string_map : List (String × ErrorCode)
error_string_map =
    (account_entries
      ++ (user_entries
          ++ (storage_entries
              ++ (friend_entries
                  ++ (post_entries ++ (comment_entries ++ (chat_entries ++ general_entries)))))))
