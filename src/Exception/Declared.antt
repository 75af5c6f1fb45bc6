-- ===== src/Exception/Declared.antt =====
-- Every error code that exception/error_code.go declares, in the order of the source.
use social_network_micro_ser.Prelude.{List, [], ◌∷◌}
use social_network_micro_ser.Exception.Code.{ErrorCode}
use social_network_micro_ser.Exception.Codes.{
  accept_request_failed, account_already_exists, account_locked, account_not_found,
  account_not_verified, account_verified, add_friend_request_received_limit_reached,
  add_friend_request_sent_limit_reached, age_must_be_at_least16, already_in_call,
  authentication_failed, birthdate_required, block_failed, block_limit_reached, block_not_found,
  call_not_found, can_not_block_yourself, can_not_delete_message, can_not_edit_call,
  can_not_edit_file_message, can_not_edit_message, can_not_make_self_request,
  can_not_reply_replied_comment, change_password_failed, chat_id_and_user_id_both_empty,
  chat_not_found, comment_content_and_attach_file_both_empty, comment_content_unchanged,
  comment_failed, comment_not_found, create_post_failed, delete_comment_failed, delete_file_failed,
  delete_message_failed, delete_post_failed, delete_request_failed, deleted_post,
  edit_message_failed, email_not_verified, email_required, expired_token, fail_to_get_post,
  family_name_required, file_message_required, file_not_found, file_required,
  forgot_password_failed, friend_not_found, get_blocked_users_failed, get_comments_failed,
  get_friends_failed, get_requests_failed, get_user_profile_failed, gif_url_required,
  given_name_required, has_been_blocked, has_blocked, invalid_captcha,
  invalid_comment_content_length, invalid_delete_attachment, invalid_email,
  invalid_family_name_length, invalid_file, invalid_file_size, invalid_given_name_length,
  invalid_input, invalid_message_content_length, invalid_number_of_post_attachments,
  invalid_or_expired_refresh_token, invalid_password, invalid_post_content_length,
  invalid_post_privacy, invalid_request_method, invalid_token, invalid_username, invalid_uuid,
  invalid_websocket_channel, less_than30_days_since_last_birthdate_change,
  less_than30_days_since_last_name_change, less_than30_days_since_last_username_change,
  like_comment_failed, like_post_failed, liked_comment, liked_post, list_contains_invalid_file,
  load_file_failed, login_failed, message_not_found, message_username_required, no_resource_found,
  not_block, not_liked_comment, not_liked_post, not_ready_for_call, nothing_changed,
  only_letter_accepted, only_public_post_can_be_shared, original_comment_id_required,
  password_required, post_content_and_attach_files_both_empty, post_content_unchanged,
  post_id_required, post_not_found, privacy_unchanged, profile_picture_required, refresh_failed,
  refresh_token_required, register_failed, reply_comment_failed, request_not_found,
  required_image_file, required_image_or_video_file, resend_email_failed, reset_password_failed,
  search_query_required, send_file_failed, send_friend_request_failed, send_gif_failed,
  send_message_failed, send_voice_failed, share_post_failed, storage_initialization_error,
  target_already_in_call, text_message_content_required, text_message_content_unchanged,
  too_many_email_requests, too_many_requests, unauthenticated, unauthorized, unblock_failed,
  unfriend_failed, unknown_error, unlike_comment_failed, unlike_post_failed, update_bio_failed,
  update_birthdate_failed, update_name_failed, update_post_failed, update_privacy_failed,
  update_profile_picture_failed, update_username_failed, upload_file_failed, user_not_found,
  username_already_exists, username_required, verification_code_not_found,
  verification_code_not_matched_or_expired, verification_code_required, verify_failed,
}

abbrev pub declared : List ErrorCode
declared =
    account_not_found ∷ account_not_verified ∷ account_locked ∷ authentication_failed
    ∷ invalid_password ∷ invalid_email ∷ email_required ∷ password_required
    ∷ verification_code_not_found ∷ verification_code_not_matched_or_expired
    ∷ refresh_token_required ∷ invalid_or_expired_refresh_token ∷ account_already_exists
    ∷ invalid_token ∷ expired_token ∷ verification_code_required ∷ account_verified
    ∷ invalid_captcha ∷ login_failed ∷ refresh_failed ∷ forgot_password_failed
    ∷ reset_password_failed ∷ change_password_failed ∷ register_failed ∷ verify_failed
    ∷ resend_email_failed ∷ too_many_email_requests ∷ given_name_required ∷ family_name_required
    ∷ birthdate_required ∷ age_must_be_at_least16 ∷ invalid_given_name_length
    ∷ invalid_family_name_length ∷ less_than30_days_since_last_birthdate_change
    ∷ less_than30_days_since_last_name_change ∷ less_than30_days_since_last_username_change
    ∷ email_not_verified ∷ user_not_found ∷ invalid_username ∷ username_required
    ∷ username_already_exists ∷ profile_picture_required ∷ nothing_changed ∷ update_bio_failed
    ∷ update_birthdate_failed ∷ update_name_failed ∷ update_username_failed
    ∷ update_profile_picture_failed ∷ get_user_profile_failed ∷ storage_initialization_error
    ∷ file_required ∷ invalid_file ∷ upload_file_failed ∷ file_not_found ∷ delete_file_failed
    ∷ load_file_failed ∷ required_image_file ∷ invalid_file_size ∷ list_contains_invalid_file
    ∷ required_image_or_video_file ∷ can_not_make_self_request ∷ send_friend_request_failed
    ∷ add_friend_request_sent_limit_reached ∷ add_friend_request_received_limit_reached
    ∷ request_not_found ∷ accept_request_failed ∷ has_blocked ∷ has_been_blocked ∷ not_block
    ∷ block_limit_reached ∷ can_not_block_yourself ∷ block_not_found ∷ friend_not_found
    ∷ delete_request_failed ∷ get_requests_failed ∷ unfriend_failed ∷ block_failed ∷ unblock_failed
    ∷ get_blocked_users_failed ∷ get_friends_failed ∷ post_content_and_attach_files_both_empty
    ∷ invalid_post_content_length ∷ invalid_number_of_post_attachments ∷ post_not_found
    ∷ only_public_post_can_be_shared ∷ privacy_unchanged ∷ invalid_delete_attachment
    ∷ post_content_unchanged ∷ liked_post ∷ not_liked_post ∷ deleted_post ∷ fail_to_get_post
    ∷ invalid_post_privacy ∷ create_post_failed ∷ share_post_failed ∷ like_post_failed
    ∷ unlike_post_failed ∷ update_privacy_failed ∷ update_post_failed ∷ delete_post_failed
    ∷ comment_not_found ∷ comment_content_and_attach_file_both_empty
    ∷ invalid_comment_content_length ∷ post_id_required ∷ original_comment_id_required
    ∷ liked_comment ∷ not_liked_comment ∷ can_not_reply_replied_comment ∷ comment_content_unchanged
    ∷ comment_failed ∷ reply_comment_failed ∷ like_comment_failed ∷ unlike_comment_failed
    ∷ get_comments_failed ∷ delete_comment_failed ∷ chat_not_found ∷ message_username_required
    ∷ invalid_message_content_length ∷ chat_id_and_user_id_both_empty ∷ message_not_found
    ∷ can_not_delete_message ∷ text_message_content_required ∷ text_message_content_unchanged
    ∷ can_not_edit_file_message ∷ can_not_edit_message ∷ file_message_required ∷ already_in_call
    ∷ target_already_in_call ∷ call_not_found ∷ not_ready_for_call ∷ can_not_edit_call
    ∷ gif_url_required ∷ send_message_failed ∷ send_gif_failed ∷ send_file_failed
    ∷ send_voice_failed ∷ edit_message_failed ∷ delete_message_failed ∷ invalid_request_method
    ∷ search_query_required ∷ too_many_requests ∷ invalid_websocket_channel ∷ only_letter_accepted
    ∷ unauthorized ∷ invalid_input ∷ invalid_uuid ∷ unauthenticated ∷ no_resource_found
    ∷ unknown_error ∷ []
