-- ===== src/Common/Url.antt =====
-- The parsed form of a URL. Parsing is the platform's: a function that needs it takes it as an
-- argument, `none` standing for the exception that an invalid URL raises.
use Prim.Native.String.{String}
use mathlib.Core.Option.{Option}

pub record Url : Type 0 where
  pub protocol : String
  pub username : String
  pub password : String
  pub host : String
  pub hostname : String
  pub port : String
  pub pathname : String
  pub search : String
  pub hash : String
  pub origin : String

abbrev pub UrlParser : Type 0
UrlParser = String → Option Url
