-- ===== src/Dumper/Cbt.antt =====
-- The parsers of dumper/cbt.go. `json.Unmarshal`, which gives what it has filled in and an error or
-- none, is a parameter.
use virtual_disks.Base.{Option, none, some, String}
use virtual_disks.Dumper.Types.{ConnParams, DiskParams, DiskChangeInfo}

pub record CbtData : Type 0 where
  pub conn : ConnParams
  pub disk : DiskParams
  pub change : DiskChangeInfo

-- `fmt.Errorf` around the error of the decoder.
pub record ParseError (E : Type 0) : Type 0 where
  pub text : String
  pub err : E

module _ {E : Type 0} where
  -- The pointer is nil where there is an error.
  abbrev checked : {A : Type 0} → String → A × Option E → Option A × Option (ParseError E)
  checked text (a, none) = (some a, none)
  checked text (a, some e) = (none, some (record { text = text; err = e }))

  pub parse_conn_params :
      (unmarshal : String → ConnParams × Option E)
      → String
      → Option ConnParams × Option (ParseError E)
  parse_conn_params unmarshal params = checked "ParseConnParmams: %v" (unmarshal params)

  pub parse_cbt_data :
      (unmarshal : String → CbtData × Option E) → String → Option CbtData × Option (ParseError E)
  parse_cbt_data unmarshal conf = checked "ParseCbtData: %v" (unmarshal conf)
