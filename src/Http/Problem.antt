-- ===== src/Http/Problem.antt =====
-- pkg/problem/problem.go, and the bodies that the server encodes as JSON.
use password_hook_service.Prelude.{
  ℕ, List, [], ◌∷◌, ◌++◌, if◌then◌else◌, is_empty, Text, codes, trim_slashes,
}
use password_hook_service.Http.Writer.{WriterCall, set_header, write_header, write_body}

pub record Problem : Type 0 where
  pub problem_type : Text
  pub title : Text
  pub status : ℕ
  pub detail : Text
  pub instance_path : Text
  pub trace_id : Text

abbrev pub default_base_url : Text
default_base_url = codes "https://nycu.edu.tw/problems"

unfoldable pub type_url : (base_url slug : Text) → Text
type_url base_url slug =
    let base = trim_slashes base_url in
    (if is_empty base then default_base_url else base) ++ codes "/" ++ slug

unfoldable pub validation : (base_url path trace_id detail : Text) → Problem
validation base_url path trace_id detail = record {
  problem_type = type_url base_url (codes "validation-error");
  title = codes "Validation Error";
  status = 400;
  detail = detail;
  instance_path = path;
  trace_id = trace_id;
}

unfoldable pub unauthorized : (base_url path trace_id detail : Text) → Problem
unauthorized base_url path trace_id detail = record {
  problem_type = type_url base_url (codes "unauthorized");
  title = codes "Unauthorized";
  status = 401;
  detail = detail;
  instance_path = path;
  trace_id = trace_id;
}

unfoldable pub too_many_requests : (base_url path trace_id detail : Text) → Problem
too_many_requests base_url path trace_id detail = record {
  problem_type = type_url base_url (codes "too-many-requests");
  title = codes "Too Many Requests";
  status = 429;
  detail = detail;
  instance_path = path;
  trace_id = trace_id;
}

unfoldable pub payload_too_large : (base_url path trace_id detail : Text) → Problem
payload_too_large base_url path trace_id detail = record {
  problem_type = type_url base_url (codes "payload-too-large");
  title = codes "Payload Too Large";
  status = 413;
  detail = detail;
  instance_path = path;
  trace_id = trace_id;
}

unfoldable pub internal : (base_url path trace_id detail : Text) → Problem
internal base_url path trace_id detail = record {
  problem_type = type_url base_url (codes "internal-error");
  title = codes "Internal Server Error";
  status = 500;
  detail = detail;
  instance_path = path;
  trace_id = trace_id;
}

-- buildinfo.Info
pub record Info : Type 0 where
  pub version : Text
  pub commit : Text
  pub build_time : Text

-- What is given to an encoder of JSON.
pub data Body : Type 0 where
  problem_document : Problem → Body
  health_status : Body
  build_info : Info → Body

abbrev pub Calls : Type 0
Calls = List (WriterCall Body)

unfoldable pub write : Problem → Calls
write p =
    set_header (codes "Content-Type") (codes "application/problem+json")
    ∷ write_header p.status
    ∷ write_body (problem_document p)
    ∷ []
