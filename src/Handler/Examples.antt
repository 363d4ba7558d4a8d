-- ===== src/Handler/Examples.antt =====
-- A small store, a server and a request, for the runs of the handlers.
use uestc_shixvn_mini_web_se.CString.{str_eq}
use uestc_shixvn_mini_web_se.Handler.{HandlerRequest, User, UserStore, Server, Outside}
use uestc_shixvn_mini_web_se.Session.{urandom, session_init}
use uestc_shixvn_mini_web_se.Prelude.{
  Bool, true, false, not, ◌&&◌, none, some, [], negsuc, replicate, if◌then◌else◌, codes,
}

abbrev pub ann : User
ann = record {
  name = codes "ann";
  password = codes "pw";
  birthdate = codes "2000-01-01";
  phone = codes "1";
  mobile = codes "139";
  email = codes "a@b.c";
}

-- A store of the one user `ann`, which is there or not.
abbrev pub one_user : UserStore Bool
one_user = record {
  user_store_auth =
      λ there mobile password. there && (str_eq mobile ann.mobile && str_eq password ann.password);
  user_store_find = λ there name. if there && str_eq name ann.name then some ann else none;
  user_store_find_index = λ there name. if there && str_eq name ann.name then some ann else none;
  user_store_add = λ there line. (true, not there);
  user_store_delete = λ there name. if str_eq name ann.name then (false, there) else (there, false);
  user_store_lookup_name = λ there mobile. none;
  user_store_format_users = λ there size. ([], 1);
  user_store_search = λ there criteria size. (some 0, []);
}

abbrev pub outside : Outside
outside = record {
  date = codes "Thu, 26 Nov 2026 18:00:00 GMT";
  lookup_time = 200;
  first_cleanup = 90;
  second_cleanup = 95;
  creation_time = 100;
  entropy = urandom (replicate 32 171);
  files = λ path. none;
  comparison = λ name verbose. none;
}

abbrev pub server : Server Bool
server = record {
  current_root = codes "www";
  auth_users = [];
  sessions = session_init;
  users = true;
}

abbrev pub get_users : HandlerRequest
get_users = record {
  method = codes "GET";
  path = codes "/users";
  body = [];
  keep_alive = 0;
  content_type = [];
  content_length_hdr = negsuc 0;
  authorization = [];
  cookie = [];
}
