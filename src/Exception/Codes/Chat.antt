-- ===== src/Exception/Codes/Chat.antt =====
-- The chat errors of exception/error_code.go.
use social_network_micro_ser.Exception.Code.{ErrorCode}

abbrev pub chat_not_found : ErrorCode
chat_not_found = record {
  code = 7000;
  message = "Chat not found";
  error = "CHAT_NOT_FOUND";
  status = 400;
}

abbrev pub message_username_required : ErrorCode
message_username_required = record {
  code = 7001;
  message = "Username is required";
  error = "MESSAGE_USERNAME_REQUIRED";
  status = 400;
}

abbrev pub invalid_message_content_length : ErrorCode
invalid_message_content_length = record {
  code = 7002;
  message = "Invalid message content length";
  error = "INVALID_MESSAGE_CONTENT_LENGTH";
  status = 400;
}

abbrev pub chat_id_and_user_id_both_empty : ErrorCode
chat_id_and_user_id_both_empty = record {
  code = 7003;
  message = "Chat id and user id cannot be empty";
  error = "CHAT_ID_AND_USER_ID_BOTH_EMPTY";
  status = 400;
}

abbrev pub message_not_found : ErrorCode
message_not_found = record {
  code = 7004;
  message = "Message not found";
  error = "MESSAGE_NOT_FOUND";
  status = 400;
}

abbrev pub can_not_delete_message : ErrorCode
can_not_delete_message = record {
  code = 7005;
  message = "Can't delete message";
  error = "CAN_NOT_DELETE_MESSAGE";
  status = 400;
}

abbrev pub text_message_content_required : ErrorCode
text_message_content_required = record {
  code = 7006;
  message = "Text message content is required";
  error = "TEXT_MESSAGE_CONTENT_REQUIRED";
  status = 400;
}

abbrev pub text_message_content_unchanged : ErrorCode
text_message_content_unchanged = record {
  code = 7007;
  message = "Text message content unchanged";
  error = "TEXT_MESSAGE_CONTENT_UNCHANGED";
  status = 400;
}

abbrev pub can_not_edit_file_message : ErrorCode
can_not_edit_file_message = record {
  code = 7008;
  message = "Can't edit file message";
  error = "CAN_NOT_EDIT_FILE_MESSAGE";
  status = 400;
}

abbrev pub can_not_edit_message : ErrorCode
can_not_edit_message = record {
  code = 7009;
  message = "Can't edit message";
  error = "CAN_NOT_EDIT_MESSAGE";
  status = 400;
}

abbrev pub file_message_required : ErrorCode
file_message_required = record {
  code = 7010;
  message = "File message is required";
  error = "FILE_MESSAGE_REQUIRED";
  status = 400;
}

abbrev pub already_in_call : ErrorCode
already_in_call = record {
  code = 7011;
  message = "You are already in call";
  error = "ALREADY_IN_CALL";
  status = 400;
}

abbrev pub target_already_in_call : ErrorCode
target_already_in_call = record {
  code = 7012;
  message = "Target is already in call";
  error = "TARGET_ALREADY_IN_IN_CALL";
  status = 400;
}

abbrev pub call_not_found : ErrorCode
call_not_found = record {
  code = 7013;
  message = "Call not found";
  error = "CALL_NOT_FOUND";
  status = 404;
}

abbrev pub not_ready_for_call : ErrorCode
not_ready_for_call = record {
  code = 7014;
  message = "Not ready for call";
  error = "NOT_READY_FOR_CALL";
  status = 400;
}

abbrev pub can_not_edit_call : ErrorCode
can_not_edit_call = record {
  code = 7015;
  message = "Can't edit call";
  error = "CAN_NOT_EDIT_CALL";
  status = 400;
}

abbrev pub gif_url_required : ErrorCode
gif_url_required = record {
  code = 7016;
  message = "Gif url is required";
  error = "GIF_URL_REQUIRED";
  status = 400;
}

abbrev pub send_message_failed : ErrorCode
send_message_failed = record {
  code = 7018;
  message = "Send message failed";
  error = "SEND_MESSAGE_FAILED";
  status = 400;
}

abbrev pub send_gif_failed : ErrorCode
send_gif_failed = record {
  code = 7019;
  message = "Send gif failed";
  error = "SEND_GIF_FAILED";
  status = 400;
}

abbrev pub send_file_failed : ErrorCode
send_file_failed = record {
  code = 7020;
  message = "Send file message failed";
  error = "SEND_FILE_FAILED";
  status = 400;
}

abbrev pub send_voice_failed : ErrorCode
send_voice_failed = record {
  code = 7021;
  message = "Send voice message failed";
  error = "SEND_VOICE_FAILED";
  status = 400;
}

abbrev pub edit_message_failed : ErrorCode
edit_message_failed = record {
  code = 7022;
  message = "Edit message failed";
  error = "EDIT_MESSAGE_FAILED";
  status = 400;
}

abbrev pub delete_message_failed : ErrorCode
delete_message_failed = record {
  code = 7023;
  message = "Delete message failed";
  error = "DELETE_MESSAGE_FAILED";
  status = 400;
}
