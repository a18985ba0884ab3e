-- ===== src/Tests/Browsing.antt =====
-- Concrete browsers and pages.
use socket_io_java.Common.{◌+◌, true, false, ◌≡◌, refl, [], ◌∷◌, some, codes, text_eq, nat_eq}
use socket_io_java.Client.State.{xhr_polling}
use socket_io_java.Browser.Requests.{Browser, x_domain}
use socket_io_java.Browser.Checks.{Target}
use socket_io_java.Browser.Opening.{open_request}
use socket_io_java.Browser.Loading.{
  Page, ready, page_loads, timers_end, count, due, ready_runs_once,
}

-- A browser with XDomainRequest and XMLHttpRequest, on a page over http.
abbrev explorer : Browser
explorer = record {
  has_window = true;
  has_document = true;
  location_protocol = codes "http:";
  x_domain_request = true;
  xml_http_request = true;
  request_throws = false;
  with_credentials = false;
  active_x_request = true;
  active_x = true;
  active_x_file = true;
  web_socket = false;
  add_task = false;
  initialize = false;
  moz_web_socket = false;
  flash_10 = false;
}

abbrev abroad : Target
abroad = record { secure = true; crosses = true }

-- A browser with ActiveX, at home.
abbrev older : Browser
older = record explorer { active_x = true; active_x_file = true }

abbrev at_home : Target
at_home = record { secure = false; crosses = false }

posted :
    open_request explorer abroad (codes "POST") (codes "/x")
    ≡ some record {
      by = x_domain;
      method = codes "POST";
      url = codes "/x";
      content_type = some (codes "text/plain");
    }
unfolding open_request
posted = refl

-- A page that is loading, in a browser that delays.
abbrev loading : Page
loading = record {
  complete = false;
  page_loaded = false;
  webkit = true;
  import_scripts = false;
  indicator = false;
  has_body = false;
  attach_event = false;
  add_event_listener = true;
  listeners = [];
  timers = [];
  ran = [];
}

ready_runs_once_example :
    count 7 (timers_end (page_loads (ready xhr_polling 7 loading))).ran
    ≡ due 7 loading + count 7 (7 ∷ [])
ready_runs_once_example = ready_runs_once xhr_polling 7 7 loading refl
