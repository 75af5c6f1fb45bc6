-- ===== src/Exception/Codes/Post.antt =====
-- The post errors of exception/error_code.go.
use social_network_micro_ser.Exception.Code.{ErrorCode}

abbrev pub post_content_and_attach_files_both_empty : ErrorCode
post_content_and_attach_files_both_empty = record {
  code = 5000;
  message = "Post content and attach files cannot be empty";
  error = "POST_CONTENT_AND_ATTACH_FILES_BOTH_EMPTY";
  status = 400;
}

abbrev pub invalid_post_content_length : ErrorCode
invalid_post_content_length = record {
  code = 5001;
  message = "Invalid post content length";
  error = "INVALID_POST_CONTENT_LENGTH";
  status = 400;
}

abbrev pub invalid_number_of_post_attachments : ErrorCode
invalid_number_of_post_attachments = record {
  code = 5002;
  message = "Invalid number of post attachments";
  error = "INVALID_NUMBER_OF_POST_ATTACHMENTS";
  status = 400;
}

abbrev pub post_not_found : ErrorCode
post_not_found = record {
  code = 5003;
  message = "Post not found";
  error = "POST_NOT_FOUND";
  status = 400;
}

abbrev pub only_public_post_can_be_shared : ErrorCode
only_public_post_can_be_shared = record {
  code = 5005;
  message = "Only public post can be shared";
  error = "ONLY_PUBLIC_POST_CAN_BE_SHARED";
  status = 400;
}

abbrev pub privacy_unchanged : ErrorCode
privacy_unchanged = record {
  code = 5006;
  message = "Privacy unchanged";
  error = "PRIVACY_UNCHANGED";
  status = 400;
}

abbrev pub invalid_delete_attachment : ErrorCode
invalid_delete_attachment = record {
  code = 5007;
  message = "Invalid delete attachment";
  error = "INVALID_DELETE_ATTACHMENT";
  status = 400;
}

abbrev pub post_content_unchanged : ErrorCode
post_content_unchanged = record {
  code = 5008;
  message = "Post content unchanged";
  error = "POST_CONTENT_UNCHANGED";
  status = 400;
}

abbrev pub liked_post : ErrorCode
liked_post = record { code = 5009; message = "Liked post"; error = "LIKED_POST"; status = 400 }

abbrev pub not_liked_post : ErrorCode
not_liked_post = record {
  code = 5010;
  message = "Not liked post";
  error = "NOT_LIKED_POST";
  status = 400;
}

abbrev pub deleted_post : ErrorCode
deleted_post = record {
  code = 5011;
  message = "Deleted post";
  error = "DELETED_POST";
  status = 400;
}

abbrev pub fail_to_get_post : ErrorCode
fail_to_get_post = record {
  code = 5012;
  message = "Fail to get post";
  error = "FAIL_TO_GET_POST";
  status = 400;
}

abbrev pub invalid_post_privacy : ErrorCode
invalid_post_privacy = record {
  code = 5013;
  message = "Invalid post privacy";
  error = "INVALID_POST_PRIVACY";
  status = 400;
}

abbrev pub create_post_failed : ErrorCode
create_post_failed = record {
  code = 5014;
  message = "Create post failed";
  error = "CREATE_POST_FAILED";
  status = 400;
}

abbrev pub share_post_failed : ErrorCode
share_post_failed = record {
  code = 5015;
  message = "Share post failed";
  error = "SHARE_POST_FAILED";
  status = 400;
}

abbrev pub like_post_failed : ErrorCode
like_post_failed = record {
  code = 5016;
  message = "Like post failed";
  error = "LIKE_POST_FAILED";
  status = 400;
}

abbrev pub unlike_post_failed : ErrorCode
unlike_post_failed = record {
  code = 5017;
  message = "Unlike post failed";
  error = "UNLIKE_POST_FAILED";
  status = 400;
}

abbrev pub update_privacy_failed : ErrorCode
update_privacy_failed = record {
  code = 5018;
  message = "Update post privacy failed";
  error = "UPDATE_PRIVACY_FAILED";
  status = 400;
}

abbrev pub update_post_failed : ErrorCode
update_post_failed = record {
  code = 5019;
  message = "Update post failed";
  error = "UPDATE_POST_FAILED";
  status = 400;
}

abbrev pub delete_post_failed : ErrorCode
delete_post_failed = record {
  code = 5020;
  message = "Delete post failed";
  error = "DELETE_POST_FAILED";
  status = 400;
}
