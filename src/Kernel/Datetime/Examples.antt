-- ===== src/Kernel/Datetime/Examples.antt =====
-- A concrete time for the theorem on kernel/datetime.c.
use os_proj.Base.{◌≡◌, some, arith}
use os_proj.Kernel.Datetime.{Rtcdate, date_of}
use os_proj.Kernel.Datetime.Calendar.{Calendar, seconds_of, date_of-Calendar}

-- The first second of 2 January 1970.
date_of-Calendar_example :
    (d : Rtcdate) × (date_of 86400 ≡ some d) × Calendar d × (seconds_of d ≡ 86400)
date_of-Calendar_example = date_of-Calendar 86400 (omega arith)
