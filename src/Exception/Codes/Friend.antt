-- ===== src/Exception/Codes/Friend.antt =====
-- The friend errors of exception/error_code.go.
use social_network_micro_ser.Exception.Code.{ErrorCode}

abbrev pub can_not_make_self_request : ErrorCode
can_not_make_self_request = record {
  code = 4000;
  message = "Can't make self request";
  error = "CAN_NOT_MAKE_SELF_REQUEST";
  status = 400;
}

abbrev pub send_friend_request_failed : ErrorCode
send_friend_request_failed = record {
  code = 4001;
  message = "Send friend request failed";
  error = "SEND_FRIEND_REQUEST_FAILED";
  status = 400;
}

abbrev pub add_friend_request_sent_limit_reached : ErrorCode
add_friend_request_sent_limit_reached = record {
  code = 4002;
  message = "Add friend request sent limit reached";
  error = "ADD_FRIEND_REQUEST_SENT_LIMIT_REACHED";
  status = 400;
}

abbrev pub add_friend_request_received_limit_reached : ErrorCode
add_friend_request_received_limit_reached = record {
  code = 4003;
  message = "Add friend request received limit reached";
  error = "ADD_FRIEND_REQUEST_RECEIVED_LIMIT_REACHED";
  status = 400;
}

abbrev pub request_not_found : ErrorCode
request_not_found = record {
  code = 4004;
  message = "Request not found";
  error = "REQUEST_NOT_FOUND";
  status = 404;
}

abbrev pub accept_request_failed : ErrorCode
accept_request_failed = record {
  code = 4005;
  message = "Accept request failed";
  error = "ACCEPT_REQUEST_FAILED";
  status = 400;
}

abbrev pub has_blocked : ErrorCode
has_blocked = record { code = 4006; message = "Blocked"; error = "HAS_BLOCKED"; status = 400 }

abbrev pub has_been_blocked : ErrorCode
has_been_blocked = record {
  code = 4007;
  message = "Has been blocked";
  error = "HAS_BEEN_BLOCKED";
  status = 400;
}

abbrev pub not_block : ErrorCode
not_block = record { code = 4008; message = "Not blocked"; error = "NOT_BLOCK"; status = 400 }

abbrev pub block_limit_reached : ErrorCode
block_limit_reached = record {
  code = 4009;
  message = "Block limit reached";
  error = "BLOCK_LIMIT_REACHED";
  status = 400;
}

abbrev pub can_not_block_yourself : ErrorCode
can_not_block_yourself = record {
  code = 4010;
  message = "Can't block yourself";
  error = "CAN_NOT_BLOCK_YOURSELF";
  status = 400;
}

abbrev pub block_not_found : ErrorCode
block_not_found = record {
  code = 4011;
  message = "Block not found";
  error = "BLOCK_NOT_FOUND";
  status = 400;
}

abbrev pub friend_not_found : ErrorCode
friend_not_found = record {
  code = 4012;
  message = "Friend not found";
  error = "FRIEND_NOT_FOUND";
  status = 400;
}

abbrev pub delete_request_failed : ErrorCode
delete_request_failed = record {
  code = 4013;
  message = "Delete friend request failed";
  error = "DELETE_REQUEST_FAILED";
  status = 400;
}

abbrev pub get_requests_failed : ErrorCode
get_requests_failed = record {
  code = 4014;
  message = "Get friend requests failed";
  error = "GET_REQUESTS_FAILED";
  status = 400;
}

abbrev pub unfriend_failed : ErrorCode
unfriend_failed = record {
  code = 4015;
  message = "Unfriend failed";
  error = "UNFRIEND_FAILED";
  status = 400;
}

abbrev pub block_failed : ErrorCode
block_failed = record {
  code = 4016;
  message = "Block user failed";
  error = "BLOCK_FAILED";
  status = 400;
}

abbrev pub unblock_failed : ErrorCode
unblock_failed = record {
  code = 4017;
  message = "Unblock user failed";
  error = "UNBLOCK_FAILED";
  status = 400;
}

abbrev pub get_blocked_users_failed : ErrorCode
get_blocked_users_failed = record {
  code = 4018;
  message = "Get blocked users failed";
  error = "GET_BLOCKED_USERS_FAILED";
  status = 400;
}

abbrev pub get_friends_failed : ErrorCode
get_friends_failed = record {
  code = 4019;
  message = "Get friends failed";
  error = "GET_FRIENDS_FAILED";
  status = 400;
}
