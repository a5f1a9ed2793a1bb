-- ===== src/ErrorHandler.antt =====
-- src/middlewares/error-handler.middleware.ts: the reply to what a handler throws. The `statusCode`
-- that Fastify puts on its own errors is an argument; a thrown value that is no `Error` carries
-- neither a status nor a code.
use ts_api_gateway.Common.{
  if◌then◌else◌, ℕ, suc, Bool, false, Option, none, some, Text, codes, text_eq,
}
use ts_api_gateway.Proxy.{Thrown, error, not_an_error}

-- `code === '23505'`, PostgreSQL's unique violation.
abbrev pub is_unique_code : Option Text → Bool
is_unique_code none = false
is_unique_code (some code) = text_eq code (codes "23505")

unfoldable pub error_handler : Option ℕ → Thrown → ℕ × Text
unfolding text_eq
error_handler (some (suc status)) (error name message code) = (suc status, message)
error_handler _ (error name message code) =
    if is_unique_code code
    then (409, codes "Resource already exists")
    else (500, codes "Internal Server Error")
error_handler _ not_an_error = (500, codes "Internal Server Error")
