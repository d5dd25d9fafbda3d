-- ===== src/Tests/Setup.antt =====
-- The parameters of the model, as concrete functions.
use tv_cast.Prelude.{
  Bool, ℕ, ◌-◌, refl, ◌==◌, List, [], ◌∷◌, Option, none, some, if◌then◌else◌, length, Bytes, Map,
  codes, lookup, insert, ok,
}
use tv_cast.Http.CParser.{
  UrlField, uf_path, uf_query, FieldData, ParserFields, Run, done, call, HttpParserLib,
  on_message_begin, on_url, on_headers_complete, on_body, on_message_complete,
}
use tv_cast.Http.Parser.Safety.{
  Phase, in_head, in_body, Conforms, stop, step, begins, url, headers, body, complete, CallsInOrder,
}
use tv_cast.App.Interfaces.{Boost, Endpoint, Sessions, Network}

-- A request with a body of three bytes.
abbrev pub fields : ParserFields
fields = record { http_major = 1; http_minor = 1; status_code = 0; method = 1; content_length = 3 }

abbrev pub execute : Phase → Bytes → Run Phase
execute in_body buffer = done 0 in_body
execute in_head buffer = call on_message_begin (λ a. call (on_url (some (codes "/"))) (λ b.
    call (on_headers_complete (some fields)) (λ c.
      call (on_body (some fields) (some buffer))
        (λ d. call on_message_complete (λ e. done (length buffer) in_head)))))

-- A path of 14 characters, and a query behind the character after it.
abbrev pub places : ℕ → UrlField → FieldData
places n uf_path = record { off = 0; len = 14 }
places n uf_query = record { off = 15; len = n - 15 }
places n _ = record { off = 0; len = 0 }

abbrev pub lib : HttpParserLib
lib = record {
  CState = Phase;
  http_parser_init = in_head;
  http_parser_execute = execute;
  http_parser_parse_url =
      λ str n is_connect. (0, record { field_set = 24; port = 0; field_data = places n });
  http_method_str = λ m. codes "GET";
}

pub execute-Conforms : (c : Phase) (buffer : Bytes) → Conforms (λ ph. ph) c (execute c buffer)
execute-Conforms in_body buffer = stop 0 in_body refl
execute-Conforms in_head buffer = step begins (λ a. step (url _) (λ b.
    step (headers fields)
      (λ c. step (body _ _) (λ d. step complete (λ e. stop (length buffer) in_head refl)))))

abbrev pub order : CallsInOrder lib
order = record { phase_of = λ ph. ph; at_start = refl; conforms = execute-Conforms }

-- A tree is its paths with their values; every text is the same notification.
abbrev pub alive_tree : Map
alive_tree = (codes "type", codes "alive") ∷ (codes "data.v2.uri", codes "/api/v2/a/b/cd?x=y") ∷ []

abbrev pub read_tree : Bytes → Option Map
read_tree [] = none
read_tree (c ∷ text) = some (if c == b'{' then alive_tree else [])

abbrev pub boost : Boost
boost = record {
  Tree = Map;
  Address = Bytes;
  empty_tree = [];
  put = insert;
  write_xml = λ tree. codes "<rss/>";
  read_json = read_tree;
  get_string = lookup;
  get_uint32 = λ path tree. none;
  from_string = some;
}

-- The only connections that can be made are to port 8001.
abbrev pub service : Endpoint boost → Bool
service endpoint = endpoint.port == 8001

-- The network is what has been written to it, the last buffer first.
abbrev pub Sent : Type 0
Sent = List (ℕ × Bytes)

abbrev pub net : Network Sent Bytes
net = record {
  create_http_client_session = λ address w. ok (some 7, w);
  write = λ session buffer w. ok ((session, buffer) ∷ w);
  read = λ session w. ok w;
}

abbrev pub sessions : Sessions Sent
sessions = record { write = λ session buffer w. ok ((session, buffer) ∷ w) }
