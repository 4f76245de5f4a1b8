-- ===== src/Web/Server/Added.antt =====
-- `rb_web_add_file`: files that the application adds.
use rb3201_rbprotocol_librar.Prelude.{List}
use rb3201_rbprotocol_librar.Web.Route.{Web}
