-- ===== src/Common/Storage.antt =====
-- One item of the browser's local storage. A browsing context may refuse reads, or writes.
use Prim.Native.String.{String}
use mathlib.Core.Bool.{Bool}
use mathlib.Core.Option.{Option, some}
use enterprise_crm.Common.Tests.{if◌then◌else◌}

pub record Storage : Type 0 where
  pub reads : Bool
  pub writes : Bool
  pub item : Option String

-- What `getItem` comes to: it throws, or it gives the item, which may be missing.
pub data Read : Type 0 where
  refused : Read
  found : Option String → Read

unfoldable pub get_item : Storage → Read
get_item storage = if storage.reads then found storage.item else refused

-- `setItem`, its exception caught.
unfoldable pub set_item : String → Storage → Storage
set_item text storage = if storage.writes then record storage { item = some text } else storage
