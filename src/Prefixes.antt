-- ===== src/Prefixes.antt =====
-- The fixed prefixes of the messages on the control interface (src/wpa_ctrl/wpa_ctrl.h).
pub mod Texts
pub mod Unambiguous
use wpa_supplicant_ex.Shared.{List, [], ◌∷◌, ◌++◌}
use Prim.Native.String.{String}

-- A `#define` of a string: its name and its text.
pub record Macro : Type 0 where
  pub name : String
  pub text : String

abbrev define : String → String → Macro
define name text = record { name = name; text = text }

-- Requests and responses for an identity, a password or a pin.
abbrev pub interactive : List Macro
interactive = define "WPA_CTRL_REQ" "CTRL-REQ-" ∷ define "WPA_CTRL_RSP" "CTRL-RSP-" ∷ []

-- Authentication, association, scanning and frequencies.
abbrev pub supplicant_events : List Macro
supplicant_events =
    define "WPA_EVENT_CONNECTED" "CTRL-EVENT-CONNECTED "
    ∷ define "WPA_EVENT_DISCONNECTED" "CTRL-EVENT-DISCONNECTED "
    ∷ define "WPA_EVENT_ASSOC_REJECT" "CTRL-EVENT-ASSOC-REJECT "
    ∷ define "WPA_EVENT_TERMINATING" "CTRL-EVENT-TERMINATING "
    ∷ define "WPA_EVENT_PASSWORD_CHANGED" "CTRL-EVENT-PASSWORD-CHANGED "
    ∷ define "WPA_EVENT_EAP_NOTIFICATION" "CTRL-EVENT-EAP-NOTIFICATION "
    ∷ define "WPA_EVENT_EAP_STARTED" "CTRL-EVENT-EAP-STARTED "
    ∷ define "WPA_EVENT_EAP_PROPOSED_METHOD" "CTRL-EVENT-EAP-PROPOSED-METHOD "
    ∷ define "WPA_EVENT_EAP_METHOD" "CTRL-EVENT-EAP-METHOD "
    ∷ define "WPA_EVENT_EAP_PEER_CERT" "CTRL-EVENT-EAP-PEER-CERT "
    ∷ define "WPA_EVENT_EAP_TLS_CERT_ERROR" "CTRL-EVENT-EAP-TLS-CERT-ERROR "
    ∷ define "WPA_EVENT_EAP_STATUS" "CTRL-EVENT-EAP-STATUS "
    ∷ define "WPA_EVENT_EAP_SUCCESS" "CTRL-EVENT-EAP-SUCCESS "
    ∷ define "WPA_EVENT_EAP_FAILURE" "CTRL-EVENT-EAP-FAILURE "
    ∷ define "WPA_EVENT_TEMP_DISABLED" "CTRL-EVENT-SSID-TEMP-DISABLED "
    ∷ define "WPA_EVENT_REENABLED" "CTRL-EVENT-SSID-REENABLED "
    ∷ define "WPA_EVENT_SCAN_STARTED" "CTRL-EVENT-SCAN-STARTED "
    ∷ define "WPA_EVENT_SCAN_RESULTS" "CTRL-EVENT-SCAN-RESULTS "
    ∷ define "WPA_EVENT_STATE_CHANGE" "CTRL-EVENT-STATE-CHANGE "
    ∷ define "WPA_EVENT_BSS_ADDED" "CTRL-EVENT-BSS-ADDED "
    ∷ define "WPA_EVENT_BSS_REMOVED" "CTRL-EVENT-BSS-REMOVED "
    ∷ define "IBSS_RSN_COMPLETED" "IBSS-RSN-COMPLETED "
    ∷ define "WPA_EVENT_FREQ_CONFLICT" "CTRL-EVENT-FREQ-CONFLICT "
    ∷ define "WPA_EVENT_AVOID_FREQ" "CTRL-EVENT-AVOID-FREQ "
    ∷ []

-- Wi-Fi Protected Setup and its external registrar.
abbrev pub wps_events : List Macro
wps_events =
    define "WPS_EVENT_OVERLAP" "WPS-OVERLAP-DETECTED "
    ∷ define "WPS_EVENT_AP_AVAILABLE_PBC" "WPS-AP-AVAILABLE-PBC "
    ∷ define "WPS_EVENT_AP_AVAILABLE_AUTH" "WPS-AP-AVAILABLE-AUTH "
    ∷ define "WPS_EVENT_AP_AVAILABLE_PIN" "WPS-AP-AVAILABLE-PIN "
    ∷ define "WPS_EVENT_AP_AVAILABLE" "WPS-AP-AVAILABLE "
    ∷ define "WPS_EVENT_CRED_RECEIVED" "WPS-CRED-RECEIVED "
    ∷ define "WPS_EVENT_M2D" "WPS-M2D "
    ∷ define "WPS_EVENT_FAIL" "WPS-FAIL "
    ∷ define "WPS_EVENT_SUCCESS" "WPS-SUCCESS "
    ∷ define "WPS_EVENT_TIMEOUT" "WPS-TIMEOUT "
    ∷ define "WPS_EVENT_ACTIVE" "WPS-PBC-ACTIVE "
    ∷ define "WPS_EVENT_DISABLE" "WPS-PBC-DISABLE "
    ∷ define "WPS_EVENT_ENROLLEE_SEEN" "WPS-ENROLLEE-SEEN "
    ∷ define "WPS_EVENT_OPEN_NETWORK" "WPS-OPEN-NETWORK "
    ∷ define "WPS_EVENT_ER_AP_ADD" "WPS-ER-AP-ADD "
    ∷ define "WPS_EVENT_ER_AP_REMOVE" "WPS-ER-AP-REMOVE "
    ∷ define "WPS_EVENT_ER_ENROLLEE_ADD" "WPS-ER-ENROLLEE-ADD "
    ∷ define "WPS_EVENT_ER_ENROLLEE_REMOVE" "WPS-ER-ENROLLEE-REMOVE "
    ∷ define "WPS_EVENT_ER_AP_SETTINGS" "WPS-ER-AP-SETTINGS "
    ∷ define "WPS_EVENT_ER_SET_SEL_REG" "WPS-ER-AP-SET-SEL-REG "
    ∷ []

-- Wi-Fi Direct, and `ESS_DISASSOC_IMMINENT` among it.
abbrev pub p2p_events : List Macro
p2p_events =
    define "P2P_EVENT_DEVICE_FOUND" "P2P-DEVICE-FOUND "
    ∷ define "P2P_EVENT_DEVICE_LOST" "P2P-DEVICE-LOST "
    ∷ define "P2P_EVENT_GO_NEG_REQUEST" "P2P-GO-NEG-REQUEST "
    ∷ define "P2P_EVENT_GO_NEG_SUCCESS" "P2P-GO-NEG-SUCCESS "
    ∷ define "P2P_EVENT_GO_NEG_FAILURE" "P2P-GO-NEG-FAILURE "
    ∷ define "P2P_EVENT_GROUP_FORMATION_SUCCESS" "P2P-GROUP-FORMATION-SUCCESS "
    ∷ define "P2P_EVENT_GROUP_FORMATION_FAILURE" "P2P-GROUP-FORMATION-FAILURE "
    ∷ define "P2P_EVENT_GROUP_STARTED" "P2P-GROUP-STARTED "
    ∷ define "P2P_EVENT_GROUP_REMOVED" "P2P-GROUP-REMOVED "
    ∷ define "P2P_EVENT_CROSS_CONNECT_ENABLE" "P2P-CROSS-CONNECT-ENABLE "
    ∷ define "P2P_EVENT_CROSS_CONNECT_DISABLE" "P2P-CROSS-CONNECT-DISABLE "
    ∷ define "P2P_EVENT_PROV_DISC_SHOW_PIN" "P2P-PROV-DISC-SHOW-PIN "
    ∷ define "P2P_EVENT_PROV_DISC_ENTER_PIN" "P2P-PROV-DISC-ENTER-PIN "
    ∷ define "P2P_EVENT_PROV_DISC_PBC_REQ" "P2P-PROV-DISC-PBC-REQ "
    ∷ define "P2P_EVENT_PROV_DISC_PBC_RESP" "P2P-PROV-DISC-PBC-RESP "
    ∷ define "P2P_EVENT_PROV_DISC_FAILURE" "P2P-PROV-DISC-FAILURE"
    ∷ define "P2P_EVENT_SERV_DISC_REQ" "P2P-SERV-DISC-REQ "
    ∷ define "P2P_EVENT_SERV_DISC_RESP" "P2P-SERV-DISC-RESP "
    ∷ define "P2P_EVENT_INVITATION_RECEIVED" "P2P-INVITATION-RECEIVED "
    ∷ define "P2P_EVENT_INVITATION_RESULT" "P2P-INVITATION-RESULT "
    ∷ define "P2P_EVENT_FIND_STOPPED" "P2P-FIND-STOPPED "
    ∷ define "P2P_EVENT_PERSISTENT_PSK_FAIL" "P2P-PERSISTENT-PSK-FAIL id="
    ∷ define "P2P_EVENT_PRESENCE_RESPONSE" "P2P-PRESENCE-RESPONSE "
    ∷ define "P2P_EVENT_NFC_BOTH_GO" "P2P-NFC-BOTH-GO "
    ∷ define "P2P_EVENT_NFC_PEER_CLIENT" "P2P-NFC-PEER-CLIENT "
    ∷ define "P2P_EVENT_NFC_WHILE_CLIENT" "P2P-NFC-WHILE-CLIENT "
    ∷ define "ESS_DISASSOC_IMMINENT" "ESS-DISASSOC-IMMINENT "
    ∷ define "P2P_EVENT_REMOVE_AND_REFORM_GROUP" "P2P-REMOVE-AND-REFORM-GROUP "
    ∷ []

-- Interworking, queries of the generic advertisement service, and radio work.
abbrev pub service_events : List Macro
service_events =
    define "INTERWORKING_AP" "INTERWORKING-AP "
    ∷ define "INTERWORKING_NO_MATCH" "INTERWORKING-NO-MATCH "
    ∷ define "INTERWORKING_ALREADY_CONNECTED" "INTERWORKING-ALREADY-CONNECTED "
    ∷ define "GAS_RESPONSE_INFO" "GAS-RESPONSE-INFO "
    ∷ define "GAS_QUERY_START" "GAS-QUERY-START "
    ∷ define "GAS_QUERY_DONE" "GAS-QUERY-DONE "
    ∷ define "EXT_RADIO_WORK_START" "EXT-RADIO-WORK-START "
    ∷ define "EXT_RADIO_WORK_TIMEOUT" "EXT-RADIO-WORK-TIMEOUT "
    ∷ []

-- The messages of hostapd.
abbrev pub hostapd_events : List Macro
hostapd_events =
    define "WPS_EVENT_PIN_NEEDED" "WPS-PIN-NEEDED "
    ∷ define "WPS_EVENT_NEW_AP_SETTINGS" "WPS-NEW-AP-SETTINGS "
    ∷ define "WPS_EVENT_REG_SUCCESS" "WPS-REG-SUCCESS "
    ∷ define "WPS_EVENT_AP_SETUP_LOCKED" "WPS-AP-SETUP-LOCKED "
    ∷ define "WPS_EVENT_AP_SETUP_UNLOCKED" "WPS-AP-SETUP-UNLOCKED "
    ∷ define "WPS_EVENT_AP_PIN_ENABLED" "WPS-AP-PIN-ENABLED "
    ∷ define "WPS_EVENT_AP_PIN_DISABLED" "WPS-AP-PIN-DISABLED "
    ∷ define "AP_STA_CONNECTED" "AP-STA-CONNECTED "
    ∷ define "AP_STA_DISCONNECTED" "AP-STA-DISCONNECTED "
    ∷ define "AP_REJECTED_MAX_STA" "AP-REJECTED-MAX-STA "
    ∷ define "AP_REJECTED_BLOCKED_STA" "AP-REJECTED-BLOCKED-STA "
    ∷ define "AP_EVENT_ENABLED" "AP-ENABLED "
    ∷ define "AP_EVENT_DISABLED" "AP-DISABLED "
    ∷ define "ACS_EVENT_STARTED" "ACS-STARTED "
    ∷ define "ACS_EVENT_COMPLETED" "ACS-COMPLETED "
    ∷ define "ACS_EVENT_FAILED" "ACS-FAILED "
    ∷ define "DFS_EVENT_RADAR_DETECTED" "DFS-RADAR-DETECTED "
    ∷ define "DFS_EVENT_NEW_CHANNEL" "DFS-NEW-CHANNEL "
    ∷ define "DFS_EVENT_CAC_START" "DFS-CAC-START "
    ∷ define "DFS_EVENT_CAC_COMPLETED" "DFS-CAC-COMPLETED "
    ∷ define "DFS_EVENT_NOP_FINISHED" "DFS-NOP-FINISHED "
    ∷ define "AP_CSA_FINISHED" "AP-CSA-FINISHED "
    ∷ []

abbrev pub message_prefixes : List Macro
message_prefixes =
    interactive
    ++ (supplicant_events ++ (wps_events ++ (p2p_events ++ (service_events ++ hostapd_events))))
