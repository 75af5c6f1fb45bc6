-- ===== src/Exception/Codes/Comment.antt =====
-- The comment errors of exception/error_code.go.
use social_network_micro_ser.Exception.Code.{ErrorCode}

abbrev pub comment_not_found : ErrorCode
comment_not_found = record {
  code = 6000;
  message = "Comment not found";
  error = "COMMENT_NOT_FOUND";
  status = 404;
}

abbrev pub comment_content_and_attach_file_both_empty : ErrorCode
comment_content_and_attach_file_both_empty = record {
  code = 6001;
  message = "Comment content and attach file cannot be empty";
  error = "COMMENT_CONTENT_AND_ATTACH_FILE_BOTH_EMPTY";
  status = 400;
}

abbrev pub invalid_comment_content_length : ErrorCode
invalid_comment_content_length = record {
  code = 6002;
  message = "Invalid comment content length";
  error = "INVALID_COMMENT_CONTENT_LENGTH";
  status = 400;
}

abbrev pub post_id_required : ErrorCode
post_id_required = record {
  code = 6003;
  message = "Post id is required";
  error = "POST_ID_REQUIRED";
  status = 400;
}

abbrev pub original_comment_id_required : ErrorCode
original_comment_id_required = record {
  code = 6004;
  message = "Original comment id is required";
  error = "ORIGINAL_COMMENT_ID_REQUIRED";
  status = 400;
}

abbrev pub liked_comment : ErrorCode
liked_comment = record {
  code = 6005;
  message = "Liked comment";
  error = "LIKED_COMMENT";
  status = 400;
}

abbrev pub not_liked_comment : ErrorCode
not_liked_comment = record {
  code = 6006;
  message = "Not liked comment";
  error = "NOT_LIKED_COMMENT";
  status = 400;
}

abbrev pub can_not_reply_replied_comment : ErrorCode
can_not_reply_replied_comment = record {
  code = 6007;
  message = "Can't reply replied comment";
  error = "CAN_NOT_REPLY_REPLIED_COMMENT";
  status = 400;
}

abbrev pub comment_content_unchanged : ErrorCode
comment_content_unchanged = record {
  code = 6008;
  message = "Comment content unchanged";
  error = "COMMENT_CONTENT_UNCHANGED";
  status = 400;
}

abbrev pub comment_failed : ErrorCode
comment_failed = record {
  code = 6010;
  message = "Comment failed";
  error = "COMMENT_FAILED";
  status = 400;
}

abbrev pub reply_comment_failed : ErrorCode
reply_comment_failed = record {
  code = 6011;
  message = "Reply comment failed";
  error = "REPLY_COMMENT_FAILED";
  status = 400;
}

abbrev pub like_comment_failed : ErrorCode
like_comment_failed = record {
  code = 6012;
  message = "Like comment failed";
  error = "LIKE_COMMENT_FAILED";
  status = 400;
}

abbrev pub unlike_comment_failed : ErrorCode
unlike_comment_failed = record {
  code = 6013;
  message = "Unlike comment failed";
  error = "UNLIKE_COMMENT_FAILED";
  status = 400;
}

abbrev pub get_comments_failed : ErrorCode
get_comments_failed = record {
  code = 6014;
  message = "Get comments failed";
  error = "GET_COMMENTS_FAILED";
  status = 400;
}

abbrev pub delete_comment_failed : ErrorCode
delete_comment_failed = record {
  code = 6015;
  message = "Delete comment failed";
  error = "DELETE_COMMENT_FAILED";
  status = 400;
}
