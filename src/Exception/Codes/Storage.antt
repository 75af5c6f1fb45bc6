-- ===== src/Exception/Codes/Storage.antt =====
-- The storage errors of exception/error_code.go.
use social_network_micro_ser.Exception.Code.{ErrorCode}

abbrev pub storage_initialization_error : ErrorCode
storage_initialization_error = record {
  code = 3000;
  message = "Storage initialization error";
  error = "STORAGE_INITIALIZATION_ERROR";
  status = 500;
}

abbrev pub file_required : ErrorCode
file_required = record {
  code = 3001;
  message = "File is required";
  error = "FILE_REQUIRED";
  status = 400;
}

abbrev pub invalid_file : ErrorCode
invalid_file = record {
  code = 3002;
  message = "Invalid file";
  error = "INVALID_FILE";
  status = 400;
}

abbrev pub upload_file_failed : ErrorCode
upload_file_failed = record {
  code = 3003;
  message = "Upload file failed";
  error = "UPLOAD_FILE_FAILED";
  status = 500;
}

abbrev pub file_not_found : ErrorCode
file_not_found = record {
  code = 3004;
  message = "File not found";
  error = "FILE_NOT_FOUND";
  status = 404;
}

abbrev pub delete_file_failed : ErrorCode
delete_file_failed = record {
  code = 3005;
  message = "Delete file failed";
  error = "DELETE_FILE_FAILED";
  status = 500;
}

abbrev pub load_file_failed : ErrorCode
load_file_failed = record {
  code = 3006;
  message = "Load file failed";
  error = "LOAD_FILE_FAILED";
  status = 500;
}

abbrev pub required_image_file : ErrorCode
required_image_file = record {
  code = 3007;
  message = "Required image file";
  error = "REQUIRED_IMAGE_FILE";
  status = 400;
}

abbrev pub invalid_file_size : ErrorCode
invalid_file_size = record {
  code = 3008;
  message = "Invalid file size";
  error = "INVALID_FILE_SIZE";
  status = 400;
}

abbrev pub list_contains_invalid_file : ErrorCode
list_contains_invalid_file = record {
  code = 3009;
  message = "List contains invalid file";
  error = "LIST_CONTAINS_INVALID_FILE";
  status = 400;
}

abbrev pub required_image_or_video_file : ErrorCode
required_image_or_video_file = record {
  code = 3010;
  message = "Required image or video file";
  error = "REQUIRED_IMAGE_OR_VIDEO_FILE";
  status = 400;
}
