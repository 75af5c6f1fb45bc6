-- ===== src/Exception/Codes/General.antt =====
-- The general errors of exception/error_code.go.
use social_network_micro_ser.Exception.Code.{ErrorCode}

abbrev pub invalid_request_method : ErrorCode
invalid_request_method = record {
  code = 7015;
  message = "Invalid request method";
  error = "INVALID_REQUEST_METHOD";
  status = 405;
}

abbrev pub search_query_required : ErrorCode
search_query_required = record {
  code = 9000;
  message = "Search query is required";
  error = "SEARCH_QUERY_REQUIRED";
  status = 400;
}

abbrev pub too_many_requests : ErrorCode
too_many_requests = record {
  code = 9991;
  message = "Too many requests, please wait a minutes";
  error = "TOO_MANY_REQUESTS";
  status = 429;
}

abbrev pub invalid_websocket_channel : ErrorCode
invalid_websocket_channel = record {
  code = 9992;
  message = "Invalid websocket channel";
  error = "INVALID_WEBSOCKET_CHANNEL";
  status = 400;
}

abbrev pub only_letter_accepted : ErrorCode
only_letter_accepted = record {
  code = 9993;
  message = "Only letter accepted";
  error = "ONLY_LETTER_ACCEPTED";
  status = 400;
}

abbrev pub unauthorized : ErrorCode
unauthorized = record {
  code = 9994;
  message = "Unauthorized";
  error = "UNAUTHORIZED";
  status = 400;
}

abbrev pub invalid_input : ErrorCode
invalid_input = record {
  code = 9995;
  message = "Invalid input";
  error = "INVALID_INPUT";
  status = 400;
}

abbrev pub invalid_uuid : ErrorCode
invalid_uuid = record {
  code = 9996;
  message = "Invalid uuid";
  error = "INVALID_UUID";
  status = 400;
}

abbrev pub unauthenticated : ErrorCode
unauthenticated = record {
  code = 9997;
  message = "Unauthenticated";
  error = "UNAUTHENTICATED";
  status = 401;
}

abbrev pub no_resource_found : ErrorCode
no_resource_found = record {
  code = 9998;
  message = "Resource not found";
  error = "NO_RESOURCE_FOUND";
  status = 404;
}

abbrev pub unknown_error : ErrorCode
unknown_error = record {
  code = 9999;
  message = "Something went wrong";
  error = "UNKNOWN_ERROR";
  status = 500;
}
