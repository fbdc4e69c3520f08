-- ===== src/Errors/Text.antt =====
-- The numbers of eARNETWORKAL_ERROR in Includes/libARNetworkAL/ARNETWORKAL_Error.h, and
-- ARNETWORKAL_Error_ToString of gen/Sources/ARNETWORKAL_Error.c.
use Prim.Native.String.{String}
use text.Mathlib.Text.{◌==◌ as same_text}
use lib_arnetwork_al.Prelude.{
  ◌≡◌, refl, Bool, false, ℤ, pos, negsuc, List, [], ◌∷◌, Option, none, some, if◌then◌else◌, ◌==◌,
}
use lib_arnetwork_al.Errors.{
  Error, ok, generic_error, alloc, bad_parameter, fifo_init, main_thread, manager_error,
  manager_operation_not_supported, network, network_type, wifi, wifi_socket_creation,
  wifi_socket_permission_denied, wifi_socket_getopt, wifi_socket_setopt, ble_connection,
  ble_not_connected, ble_disconnection, ble_services_discovering, ble_characteristics_discovering,
  ble_characteristic_configuring, ble_stack,
}

-- The value of an enumerator.
abbrev pub error_code : Error → ℤ
error_code ok = pos 0
error_code generic_error = negsuc 999
error_code alloc = negsuc 998
error_code bad_parameter = negsuc 997
error_code fifo_init = negsuc 996
error_code main_thread = negsuc 995
error_code manager_error = negsuc 1999
error_code manager_operation_not_supported = negsuc 1998
error_code network = negsuc 2999
error_code network_type = negsuc 2998
error_code wifi = negsuc 3999
error_code wifi_socket_creation = negsuc 3998
error_code wifi_socket_permission_denied = negsuc 3997
error_code wifi_socket_getopt = negsuc 3996
error_code wifi_socket_setopt = negsuc 3995
error_code ble_connection = negsuc 4999
error_code ble_not_connected = negsuc 4998
error_code ble_disconnection = negsuc 4997
error_code ble_services_discovering = negsuc 4996
error_code ble_characteristics_discovering = negsuc 4995
error_code ble_characteristic_configuring = negsuc 4994
error_code ble_stack = negsuc 4993

abbrev pub text_of : Error → String
text_of ok = "No error"
text_of generic_error = "ARNetworkAL Generic error"
text_of alloc = "Memory allocation error"
text_of bad_parameter = "Bad parameters"
text_of fifo_init = "Fifo creation error (details set in errno)"
text_of main_thread = "The function cannot be run in main thread"
text_of manager_error = "Manager generic error"
text_of manager_operation_not_supported = "The current manager does not support this operation"
text_of network = "Network generic error"
text_of network_type = "Network type, not available for the platform error"
text_of wifi = "Wifi generic error"
text_of wifi_socket_creation = "Wifi socket error during creation"
text_of wifi_socket_permission_denied = "Wifi socket permission denied"
text_of wifi_socket_getopt = "wifi socket error on getopt"
text_of wifi_socket_setopt = "wifi socket error on setopt"
text_of ble_connection = "BLE connection generic error"
text_of ble_not_connected = "BLE is not connected"
text_of ble_disconnection = "BLE disconnection error"
text_of ble_services_discovering = "BLE network services discovering error"
text_of ble_characteristics_discovering = "BLE network characteristics discovering error"
text_of ble_characteristic_configuring = "BLE network characteristic configuring error"
text_of ble_stack = "BLE stack generic error"

-- The enumerators, in their order.
abbrev pub all_errors : List Error
all_errors =
    ok ∷ generic_error ∷ alloc ∷ bad_parameter ∷ fifo_init ∷ main_thread ∷ manager_error
    ∷ manager_operation_not_supported ∷ network ∷ network_type ∷ wifi ∷ wifi_socket_creation
    ∷ wifi_socket_permission_denied ∷ wifi_socket_getopt ∷ wifi_socket_setopt ∷ ble_connection
    ∷ ble_not_connected ∷ ble_disconnection ∷ ble_services_discovering
    ∷ ble_characteristics_discovering ∷ ble_characteristic_configuring ∷ ble_stack ∷ []

abbrev pub same_code : ℤ → ℤ → Bool
same_code (pos m) (pos n) = m == n
same_code (negsuc m) (negsuc n) = m == n
same_code (pos m) (negsuc n) = false
same_code (negsuc m) (pos n) = false

-- The first of some errors that passes a test.
abbrev pub first_error : (Error → Bool) → List Error → Option Error
first_error test [] = none
first_error test (e ∷ es) = let rest = first_error test es in if test e then some e else rest

-- The error of a number, and of a text.
abbrev pub error_of_code : ℤ → Option Error
error_of_code code = first_error (λ e. same_code (error_code e) code) all_errors

abbrev pub error_of_text : String → Option Error
error_of_text text = first_error (λ e. same_text (text_of e) text) all_errors

-- ARNETWORKAL_Error_ToString, of any number.
abbrev pub to_string : ℤ → String
to_string code = elim (error_of_code code) [ none ↦ "Unknown value" | some e ↦ text_of e ]

-- ToString of an error's number gives a text from which the error can be told: no two errors have the
-- same number, no two have the same text, and none has the text for other numbers.
pub to_string-error_code :
    (e : Error)
    → (error_of_code (error_code e) ≡ some e)
      × (error_of_text (to_string (error_code e)) ≡ some e)
      × (error_of_text "Unknown value" ≡ none)
to_string-error_code ok = (refl, refl, refl)
to_string-error_code generic_error = (refl, refl, refl)
to_string-error_code alloc = (refl, refl, refl)
to_string-error_code bad_parameter = (refl, refl, refl)
to_string-error_code fifo_init = (refl, refl, refl)
to_string-error_code main_thread = (refl, refl, refl)
to_string-error_code manager_error = (refl, refl, refl)
to_string-error_code manager_operation_not_supported = (refl, refl, refl)
to_string-error_code network = (refl, refl, refl)
to_string-error_code network_type = (refl, refl, refl)
to_string-error_code wifi = (refl, refl, refl)
to_string-error_code wifi_socket_creation = (refl, refl, refl)
to_string-error_code wifi_socket_permission_denied = (refl, refl, refl)
to_string-error_code wifi_socket_getopt = (refl, refl, refl)
to_string-error_code wifi_socket_setopt = (refl, refl, refl)
to_string-error_code ble_connection = (refl, refl, refl)
to_string-error_code ble_not_connected = (refl, refl, refl)
to_string-error_code ble_disconnection = (refl, refl, refl)
to_string-error_code ble_services_discovering = (refl, refl, refl)
to_string-error_code ble_characteristics_discovering = (refl, refl, refl)
to_string-error_code ble_characteristic_configuring = (refl, refl, refl)
to_string-error_code ble_stack = (refl, refl, refl)
