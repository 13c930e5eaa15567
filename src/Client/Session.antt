-- ===== src/Client/Session.antt =====
-- A call of a client through the router of its window, and the way of the response back.
use testmerge.Base.{String, ◌≡◌, false, str_eq}
use testmerge.Base.Maps
use testmerge.Router.Rpc

-- A command that the router does not handle itself.
pub record IsCommand (command : String) : Type 0 where
  pub not_empty : str_eq command "" ≡ false
  pub no_announce : str_eq command "routeannounce" ≡ false
  pub no_unannounce : str_eq command "routeunannounce" ≡ false
  pub no_event : str_eq command "eventrecv" ≡ false
