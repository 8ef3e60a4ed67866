-- ===== src/Openfga/Examples.antt =====
-- The theorem about a batch at a concrete server.
use overlay_mcp.Base.{
  String, ◌==◌, ◌≡◌, ◌≢◌, refl, arith, eq_iff, Bool, true, false, Option, none, some, List, [], ◌∷◌,
  Result, ok, err,
}
use overlay_mcp.Openfga.{
  CheckBody, BatchCheckResponse, Server, Openfga, success, store_not_found, batch_elems,
  batch_check, batch_simple_check,
}
use overlay_mcp.Openfga.Batch.{own_answers, batch_simple_check-own}

abbrev answers : BatchCheckResponse
answers = record { result = ("c", true) ∷ ("a", true) ∷ [] }

abbrev pub batch_server : Server
batch_server = record {
  join = λ base path. some path;
  header_name = λ s. ok s;
  header_value = λ s. ok s;
  build_client = λ headers. ok tt;
  get_stores = λ url name. err store_not_found;
  post_check = λ url body. success (record { allowed = false; resolution = "" });
  post_batch_check = λ url body. success answers;
}

abbrev client : Openfga
client = record {
  config = record { url = "http://fga"; store_name = "mcp"; headers = [] };
  store_id = "s1";
}

abbrev call_of : String → CheckBody
call_of object = record {
  tuple_key = record { user = "email:ann@x"; relation = "call"; object = object };
  contextual_tuples = record { tuple_keys = [] };
  consistency = none;
}

abbrev calls : List (CheckBody × String)
calls = (call_of "mcp:one", "a") ∷ (call_of "mcp:two", "b") ∷ (call_of "mcp:three", "c") ∷ []

asked :
    batch_check batch_server client none (record { checks = batch_elems calls }) ≡ some (ok answers)
unfolding batch_check
asked = refl

apart : (a b : String) → (a == b) ≡ false → a ≢ b
apart a b h = λ e. absurd (cc ((eq_iff a b).1 e, h))

batch_simple_check-own_example :
    batch_simple_check batch_server client calls
    ≡ some (ok (own_answers answers.result (batch_elems calls)))
unfolding batch_elems
batch_simple_check-own_example =
    batch_simple_check-own batch_server client calls answers
      ((apart "a" "b" refl, (apart "a" "c" refl, tt)), ((apart "b" "c" refl, tt), (tt, tt))) asked

own_answers_are : own_answers answers.result (batch_elems calls) ≡ true ∷ false ∷ true ∷ []
unfolding batch_elems overlay_mcp.Base.lookup
own_answers_are = refl
