-- ===== src/Saas/Errors.antt =====
-- The exceptions of saas/src/core/domain/exceptions and the handlers that turn errors into
-- responses: rfc7807-error.middleware.ts, middlewares/errorHandler.ts and utils/apiResponse.ts.
pub mod Laws
use proxy_redirector.Prelude.{ℕ, or_number, ◌++◌}
use proxy_redirector.Text.{Text, codes, or_text, to_lower, replace_all}

pub data DomainException : Type 0 where
  not_found conflict unauthorized forbidden validation service_unavailable : DomainException

unfoldable pub status_code : DomainException → ℕ
status_code not_found = 404
status_code conflict = 409
status_code unauthorized = 401
status_code forbidden = 403
status_code validation = 422
status_code service_unavailable = 503

unfoldable pub code : DomainException → Text
code not_found = codes "RESOURCE_NOT_FOUND"
code conflict = codes "RESOURCE_CONFLICT"
code unauthorized = codes "UNAUTHORIZED"
code forbidden = codes "FORBIDDEN"
code validation = codes "VALIDATION_FAILED"
code service_unavailable = codes "SERVICE_UNAVAILABLE"

-- What is thrown: a domain exception with its message, or any other value with the fields that
-- `errorHandler` reads, 0 or empty where they are missing.
pub data Thrown : Type 0 where
  domain : DomainException → Text → Thrown
  foreign : Text → Text → ℕ → ℕ → Thrown

pub record Request : Type 0 where
  pub request_id : Text
  pub original_url : Text
  pub path : Text

pub record ProblemDetails : Type 0 where
  pub type : Text
  pub title : Text
  pub status : ℕ
  pub code : Text
  pub detail : Text
  pub instance_url : Text
  pub request_id : Text

-- The response's status and body.
pub record Response (A : Type 0) : Type 0 where
  pub status : ℕ
  pub body : A

abbrev error_base : Text
error_base = codes "https://api.proxyredirector.io/errors/"

-- `err.code.toLowerCase().replace(/_/g, '-')`
unfoldable pub slug : Text → Text
slug c = replace_all b'_' (codes "-") (to_lower c)

-- The name of an exception is that of `Error`: no class of the hierarchy sets it.
unfoldable pub rfc7807_error_handler : Thrown → Request → Response ProblemDetails
rfc7807_error_handler (domain e message) req = record {
  status = status_code e;
  body = record {
    type = error_base ++ slug (code e);
    title = codes "Error";
    status = status_code e;
    code = code e;
    detail = message;
    instance_url = or_text req.original_url req.path;
    request_id = or_text req.request_id (codes "unknown");
  };
}
rfc7807_error_handler (foreign message error_code error_status_code error_status) req = record {
  status = 500;
  body = record {
    type = error_base ++ codes "internal-server-error";
    title = codes "Internal Server Error";
    status = 500;
    code = codes "INTERNAL_SERVER_ERROR";
    detail = codes "An unexpected internal error occurred on the server.";
    instance_url = or_text req.original_url req.path;
    request_id = or_text req.request_id (codes "unknown");
  };
}

-- `ApiResponse.error`
pub record ApiError : Type 0 where
  pub code : Text
  pub message : Text

unfoldable pub api_error : Text → Text → ℕ → Response ApiError
api_error message error_code status = record {
  status = status;
  body = record { code = error_code; message = message };
}

-- `errorHandler`
unfoldable pub error_handler : Thrown → Response ApiError
error_handler (domain e message) =
    api_error (or_text message (codes "An unexpected internal server error occurred")) (code e)
      (status_code e)
error_handler (foreign message error_code error_status_code error_status) =
    api_error (or_text message (codes "An unexpected internal server error occurred"))
      (or_text error_code (codes "INTERNAL_SERVER_ERROR"))
      (or_number error_status_code (or_number error_status 500))
